-- ===== src/Packets/Mhdr.antt =====
-- `MHDR`: the first byte of a mesh packet.
use chirpstack_gateway_mesh.Common.{
  ℕ, ◌+◌, ◌-◌, ◌*◌, ◌/◌, ◌≤◌, ◌<◌, ◌≡◌, refl, sym, ◌∙◌, ◌↔◌, ◌==◌, ltb, not, arith, bit_and, bit_or,
}
use chirpstack_gateway_mesh.Common.Bits.{bit_and_masks, bit_or_header}
use chirpstack_gateway_mesh.Common.Result.{
  Result, ok, ok_injective, ◌>>=◌, ◌>>◌, reject_if, IsSettled, IsSettled->>=, IsSettled-reject_if,
  invalid_mtype, min_hop_count, max_hop_count,
}
use chirpstack_gateway_mesh.Packets.PayloadType
use chirpstack_gateway_mesh.Packets.PayloadType.{PayloadType}

pub record Mhdr : Type 0 where
  pub payload_type : PayloadType
  pub hop_count : ℕ

unfoldable pub from_byte : ℕ → Result Mhdr
from_byte b = do
  reject_if (not (b / 32 == 0x07)) invalid_mtype
  t ← PayloadType.from_byte (bit_and (b / 8) 0x03)
  ok (record { payload_type = t; hop_count = bit_and b 0x07 + 1 })

unfoldable pub to_byte : Mhdr → Result ℕ
to_byte h = do
  reject_if (h.hop_count == 0) min_hop_count
  reject_if (ltb 8 h.hop_count) max_hop_count
  ok (bit_or (bit_or (0x07 * 32) (PayloadType.to_byte h.payload_type * 8)) (h.hop_count - 1))

to_byte-lt : (t : PayloadType) → PayloadType.to_byte t < 4
unfolding PayloadType.to_byte
to_byte-lt PayloadType.uplink = omega arith
to_byte-lt _ = omega arith

from_byte-to_byte_type : (t : PayloadType) → PayloadType.from_byte (PayloadType.to_byte t) ≡ ok t
unfolding PayloadType.to_byte PayloadType.from_byte
from_byte-to_byte_type PayloadType.uplink = refl
from_byte-to_byte_type _ = refl

to_byte-from_byte_type :
    (b : ℕ) {t : PayloadType} → PayloadType.from_byte b ≡ ok t → PayloadType.to_byte t ≡ b
unfolding PayloadType.to_byte PayloadType.from_byte
to_byte-from_byte_type b h = ground arith

module _ (h : Mhdr) where
  -- The header byte as a sum.
  to_byte_sum :
      0 < h.hop_count
      → h.hop_count ≤ 8
      → to_byte h ≡ ok (224 + (PayloadType.to_byte h.payload_type * 8 + (h.hop_count - 1)))
  unfolding to_byte
  to_byte_sum lo hi = ground (
    arith,
    to_byte-lt h.payload_type,
    bit_or_header (PayloadType.to_byte h.payload_type) (h.hop_count - 1),
  )

  hop_count_bounds : {b : ℕ} → to_byte h ≡ ok b → (0 < h.hop_count) × (h.hop_count ≤ 8)
  unfolding to_byte
  hop_count_bounds e = ground arith

  decodes : (b : ℕ) → b < 256 → to_byte h ≡ ok b → from_byte b ≡ ok h
  unfolding from_byte
  decodes b byte e =
      let t = PayloadType.to_byte h.payload_type in
      ground (
        arith,
        hop_count_bounds e,
        to_byte_sum (hop_count_bounds e).0 (hop_count_bounds e).1,
        to_byte-lt h.payload_type,
        from_byte-to_byte_type h.payload_type,
        bit_and_masks b,
        bit_and_masks (b / 8),
      )

  encodes : (b : ℕ) → b < 256 → from_byte b ≡ ok h → to_byte h ≡ ok b
  unfolding from_byte
  encodes b byte e = ground (
    arith,
    to_byte_sum,
    to_byte-from_byte_type (bit_and (b / 8) 0x03) {t = h.payload_type},
    bit_and_masks b,
    bit_and_masks (b / 8),
  )

-- A header has the byte `b` as its encoding exactly when `b` decodes to it.
pub to_byte-from_byte_iff : (h : Mhdr) (b : ℕ) → b < 256 → (to_byte h ≡ ok b) ↔ (from_byte b ≡ ok h)
to_byte-from_byte_iff h b byte = (decodes h b byte, encodes h b byte)

-- The encoding is a byte with its top three bits set, and the hop count is from 1 to 8.
pub to_byte_range :
    (h : Mhdr) {b : ℕ}
    → to_byte h ≡ ok b
    → (224 ≤ b) × (b < 256) × (0 < h.hop_count) × (h.hop_count ≤ 8)
to_byte_range h e =
    let (lo, hi) = hop_count_bounds h e in
    let sum = ok_injective (sym (to_byte_sum h lo hi) ∙ e) in
    (omega (arith, sum), omega (arith, sum, lo, hi, to_byte-lt h.payload_type), lo, hi)

-- A header is encoded exactly when its hop count is from 1 to 8.
pub to_byte_total :
    (h : Mhdr) → 0 < h.hop_count → h.hop_count ≤ 8 → (b : ℕ) × (to_byte h ≡ ok b) × (b < 256)
to_byte_total h lo hi = (
  224 + (PayloadType.to_byte h.payload_type * 8 + (h.hop_count - 1)),
  to_byte_sum h lo hi,
  omega (arith, to_byte-lt h.payload_type),
)

pub from_byte-IsSettled : (b : ℕ) → IsSettled (from_byte b)
unfolding from_byte
from_byte-IsSettled b =
    IsSettled->>= (reject_if (not (b / 32 == 0x07)) invalid_mtype) _ (IsSettled-reject_if _ _) λ u.
      IsSettled->>= (PayloadType.from_byte (bit_and (b / 8) 0x03)) _
        (PayloadType.from_byte-IsSettled _) (λ t. tt)
