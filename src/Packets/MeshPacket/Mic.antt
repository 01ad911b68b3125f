-- ===== src/Packets/MeshPacket/Mic.antt =====
-- Which packets the message integrity code accepts.
use chirpstack_gateway_mesh.Common.{
  ℕ, ◌≡◌, ◌↔◌, ◌≤◌, refl, sym, ap, ◌∙◌, true, false, ltb, List, [], ◌∷◌, Option, none, some, length,
  arith, take,
}
use chirpstack_gateway_mesh.Common.Bytes.{Bytes4, copy4, to_list}
use chirpstack_gateway_mesh.Common.Result.{ok, >>=-eq-ok, ok_injective}
use chirpstack_gateway_mesh.Aes128.{Aes128Key}
use chirpstack_gateway_mesh.Packets.Mhdr
use chirpstack_gateway_mesh.Packets.MeshPacket.Defs.{
  MeshPacket, Mac, IsMac, mic_eq, mic_bytes, payload_to_vec, calculate_mic, set_mic, check_mic,
  validate_mic,
}

pub mic_eq_iff : (a b : Bytes4) → (mic_eq a b ≡ true) ↔ (a ≡ b)
unfolding mic_eq
mic_eq_iff a b = ground arith

copy4_iff : (b : List ℕ) (m : Bytes4) → (copy4 b ≡ ok m) ↔ (to_list m ≡ b)
copy4_iff b m = (copied b m, λ h. ap copy4 (sym h))
  where
    copied : (b : List ℕ) (m : Bytes4) → copy4 b ≡ ok m → to_list m ≡ b
    copied (x0 ∷ x1 ∷ x2 ∷ x3 ∷ []) m h = ap to_list (sym (ok_injective h))
    copied _ m h = absurd (cc h)

module _ (cmac : Mac) (key : Aes128Key) where
  check_mic_iff :
      (p : MeshPacket) (o : Option Bytes4)
      → (check_mic cmac key p o ≡ ok true)
        ↔ ((m : Bytes4) × (o ≡ some m) × (calculate_mic cmac key p ≡ ok m))
  unfolding check_mic
  check_mic_iff p none = (λ h. absurd (cc h), λ h. absurd (cc h.1))
  check_mic_iff p (some m) = (
    λ h.
        let (c, e, f) = >>=-eq-ok (calculate_mic cmac key p) (λ c. ok (mic_eq m c)) h in
        (m, refl, e ∙ ap ok (sym ((mic_eq_iff m c).0 (ok_injective f)))),
    λ h. let same : m ≡ h.0 = cc h.1 in rw h.2 (ap ok ((mic_eq_iff m h.0).1 same)),
  )

  -- It is accepted with the code that is calculated, and with no other.
  pub validate_mic-calculate_mic :
      (p : MeshPacket)
      → (validate_mic cmac key p ≡ ok true)
        ↔ ((m : Bytes4) × (p.mic ≡ some m) × (calculate_mic cmac key p ≡ ok m))
  unfolding validate_mic
  validate_mic-calculate_mic p = check_mic_iff p p.mic

  take_four : (tag : List ℕ) → 4 ≤ length tag → (m : Bytes4) × (copy4 (take 4 tag) ≡ ok m)
  take_four (x0 ∷ x1 ∷ x2 ∷ x3 ∷ tag) h = (record { b0 = x0; b1 = x1; b2 = x2; b3 = x3 }, refl)
  take_four _ h = absurd (omega arith)

  -- The code of a packet that can be written depends on what is written, and on nothing else.
  pub calculate_mic_total :
      IsMac cmac
      → (x : ℕ) (body : List ℕ)
      → (m : Bytes4) × ((p : MeshPacket)
          → Mhdr.to_byte p.mhdr ≡ ok x
          → payload_to_vec p.payload ≡ ok body
          → calculate_mic cmac key p ≡ ok m)
  unfolding calculate_mic mic_bytes
  calculate_mic_total mac x body =
      let len = (mac key.bytes (x ∷ body)).0 in
      let long : ltb (length (cmac key.bytes (x ∷ body))) 4 ≡ false = ground (arith, len) in
      let (m, e) = take_four (cmac key.bytes (x ∷ body)) (omega (arith, len)) in
      (m, λ p h k. rw (h, k, long) e)

  calculate_mic_iff :
      (p : MeshPacket) (x : ℕ) (body : List ℕ) (m : Bytes4)
      → IsMac cmac
      → Mhdr.to_byte p.mhdr ≡ ok x
      → payload_to_vec p.payload ≡ ok body
      → (calculate_mic cmac key p ≡ ok m) ↔ (to_list m ≡ take 4 (cmac key.bytes (x ∷ body)))
  unfolding calculate_mic mic_bytes
  calculate_mic_iff p x body m mac header payload =
      let len = (mac key.bytes (x ∷ body)).0 in
      let long : ltb (length (cmac key.bytes (x ∷ body))) 4 ≡ false = ground (arith, len) in
      rw (header, payload, long) (copy4_iff (take 4 (cmac key.bytes (x ∷ body))) m)

  -- A packet with a header and a payload that can be written is accepted exactly when it carries the
  -- first four bytes of the CMAC of the header's byte and the bytes of the payload.
  pub validate_mic_iff :
      (p : MeshPacket) (x : ℕ) (body : List ℕ)
      → IsMac cmac
      → Mhdr.to_byte p.mhdr ≡ ok x
      → payload_to_vec p.payload ≡ ok body
      → (validate_mic cmac key p ≡ ok true)
        ↔ ((m : Bytes4) × (p.mic ≡ some m) × (to_list m ≡ take 4 (cmac key.bytes (x ∷ body))))
  validate_mic_iff p x body mac header payload = (
    λ h.
        let (m, carries, calculated) = (validate_mic-calculate_mic p).0 h in
        (m, carries, (calculate_mic_iff p x body m mac header payload).0 calculated),
    λ (m, carries, code).
        (validate_mic-calculate_mic p).1
          (m, carries, (calculate_mic_iff p x body m mac header payload).1 code),
  )

  -- A packet that can be written gets a code.
  pub set_mic_total :
      (p : MeshPacket) (m : Bytes4)
      → calculate_mic cmac key p ≡ ok m
      → set_mic cmac key p ≡ ok (record p { mic = some m })
  unfolding set_mic
  set_mic_total p m e = rw e refl
