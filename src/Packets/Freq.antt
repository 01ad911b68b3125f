-- ===== src/Packets/Freq.antt =====
-- `encode_freq` and `decode_freq`: a frequency in Hz as three bytes, in steps of 100 Hz, or of 200 Hz
-- in the 2.4 GHz band.
use chirpstack_gateway_mesh.Common.{
  ℕ, ◌*◌, ◌/◌, ◌%◌, ◌^◌, ◌≤◌, ◌<◌, ◌≡◌, List, [], ◌∷◌, ◌==◌, leb, not, arith, if◌then◌else◌, length,
  take, ◌⊎◌,
}
use chirpstack_gateway_mesh.Common.Bytes.{Bytes4, u32_to_be_bytes, u32_from_be_bytes, bytes4}
use chirpstack_gateway_mesh.Common.Result.{
  Result, ok, panicked, ◌>>=◌, ◌>>◌, reject_if, max_frequency, frequency_step, three_bytes_expected,
}

-- `[u8; 3]`.
pub record Bytes3 : Type 0 where
  pub b0 : ℕ
  pub b1 : ℕ
  pub b2 : ℕ

abbrev pub to_list3 : Bytes3 → List ℕ
to_list3 a = a.b0 ∷ a.b1 ∷ a.b2 ∷ []

pub record IsBytes3 (a : Bytes3) : Type 0 where
  pub byte0 : a.b0 < 256
  pub byte1 : a.b1 < 256
  pub byte2 : a.b2 < 256

unfoldable pub encode_freq : ℕ → Result Bytes3
encode_freq f = do
  let freq = if leb 2400000000 f then f / 2 else f
  reject_if (leb (2 ^ 24) (freq / 100)) max_frequency
  reject_if (not (freq % 100 == 0)) frequency_step
  let be = u32_to_be_bytes (freq / 100)
  ok (record { b0 = be.b1; b1 = be.b2; b2 = be.b3 })

-- `freq_b[1..4].copy_from_slice(&b[0..3])`.
copy_freq : List ℕ → Result Bytes4
copy_freq (x0 ∷ x1 ∷ x2 ∷ []) = ok (bytes4 0 x0 x1 x2)
copy_freq _ = panicked

unfoldable pub decode_freq : List ℕ → Result ℕ
unfolding copy_freq
decode_freq b = do
  reject_if (not (length b == 3)) three_bytes_expected
  freq_b ← copy_freq (take 3 b)
  let freq = u32_from_be_bytes freq_b
  ok (if leb 12000000 freq then freq * 200 % 2 ^ 32 else freq * 100 % 2 ^ 32)

-- The frequencies that survive the encoding: below 1.2 GHz in steps of 100 Hz, and from 2.4 GHz to
-- what 24 bits hold in steps of 200 Hz.
abbrev pub IsMeshFrequency : ℕ → Type 0
IsMeshFrequency f =
    (f < 1200000000) × (f % 100 ≡ 0) ⊎ (2400000000 ≤ f) × (f < 3355443200) × (f % 200 ≡ 0)

-- A frequency below 1.2 GHz in steps of 100 Hz, or from 2.4 GHz and below 3.3554432 GHz in steps of
-- 200 Hz, is decoded from its encoding.
pub decode_freq-encode_freq :
    (f : ℕ) → IsMeshFrequency f → (encode_freq f >>= λ b. decode_freq (to_list3 b)) ≡ ok f
unfolding encode_freq decode_freq
decode_freq-encode_freq f h = ground arith

-- From 1.2 GHz and below 1.6777216 GHz, in steps of 100 Hz, the encoder accepts a frequency that the
-- decoder reads as twice the frequency.
pub decode_freq-encode_freq_doubled :
    (f : ℕ)
    → 1200000000 ≤ f
    → f < 1677721600
    → f % 100 ≡ 0
    → (encode_freq f >>= λ b. decode_freq (to_list3 b)) ≡ ok (f * 2)
unfolding encode_freq decode_freq
decode_freq-encode_freq_doubled f lo hi step = ground arith

-- Three bytes decode, and what they decode to encodes to the same bytes.
pub encode_freq-decode_freq :
    (a : Bytes3) → IsBytes3 a → (decode_freq (to_list3 a) >>= encode_freq) ≡ ok a
unfolding encode_freq decode_freq
encode_freq-decode_freq a h = ground arith

-- The same, with the bytes named.
pub freq_bytes :
    (f : ℕ)
    → IsMeshFrequency f
    → (a : Bytes3) × (encode_freq f ≡ ok a)
      × IsBytes3 a
      × (decode_freq (a.b0 ∷ a.b1 ∷ a.b2 ∷ []) ≡ ok f)
unfolding encode_freq decode_freq
freq_bytes f h =
    let n = (if leb 2400000000 f then f / 2 else f) / 100 in
    (
      record { b0 = n / 65536 % 256; b1 = n / 256 % 256; b2 = n % 256 },
      ground arith,
      ground arith,
      ground arith,
    )
