-- ===== src/Common/Bits.antt =====
-- What the bit operations of the source compute on bytes, as arithmetic. Each law is checked for
-- every value by evaluation.
use chirpstack_gateway_mesh.Common.Tests.{ltb, ◌==◌, ==_iff}
use Prim.Native.Nat.{ℕ, zero, suc, ◌+◌, ◌*◌, ◌/◌, ◌%◌, ◌<◌, bit_and, bit_or, bit_xor}
use mathlib.Core.Path.{◌≡◌, refl}
use mathlib.Core.Bool.{Bool, true, ◌&&◌}
use native.Mathlib.Omega.{arith}

-- The test holds of every number below the bound.
holds_below : ℕ → (ℕ → Bool) → Bool
holds_below zero p = true
holds_below (suc n) p = p n && holds_below n p

holds_below_sound : (n : ℕ) (p : ℕ → Bool) (x : ℕ) → holds_below n p ≡ true → x < n → p x ≡ true
unfolding holds_below
holds_below_sound zero p x h lt = elim lt [ ]
holds_below_sound (suc n) p x h lt = ground (arith, holds_below_sound n p x)

mask_table :
    holds_below 256 (λ x.
      (bit_and x 0x0f == x % 16)
      && (bit_and x 0x3f == x % 64)
      && (bit_and x 0x07 == x % 8)
      && (bit_and x 0x03 == x % 4)
      && (bit_and x 0xf0 == x / 16 * 16)
      && (bit_and x 0xe0 == x / 32 * 32))
    ≡ true
unfolding holds_below
mask_table = refl

-- A mask keeps low bits or high bits.
pub bit_and_masks :
    (x : ℕ)
    → x < 256
    → (bit_and x 0x0f ≡ x % 16)
      × (bit_and x 0x3f ≡ x % 64)
      × (bit_and x 0x07 ≡ x % 8)
      × (bit_and x 0x03 ≡ x % 4)
      × (bit_and x 0xf0 ≡ x / 16 * 16)
      × (bit_and x 0xe0 ≡ x / 32 * 32)
bit_and_masks x h = ground (arith, holds_below_sound 256 _ x mask_table h)

nibble_table : holds_below 256 (λ x. bit_or (x / 16 * 16) (x % 16) == x) ≡ true
unfolding holds_below
nibble_table = refl

nibble_fields : (x : ℕ) → x < 256 → bit_or (x / 16 * 16) (x % 16) ≡ x
nibble_fields x h = (==_iff _ x).0 (holds_below_sound 256 _ x nibble_table h)

-- `|` of two half bytes in their places is their sum.
pub bit_or_nibbles : (hi lo : ℕ) → hi < 16 → lo < 16 → bit_or (hi * 16) lo ≡ hi * 16 + lo
bit_or_nibbles hi lo h k = ground (arith, nibble_fields (hi * 16 + lo))

header_table : holds_below 32 (λ x. bit_or (bit_or 224 (x / 8 * 8)) (x % 8) == 224 + x) ≡ true
unfolding holds_below
header_table = refl

header_fields : (x : ℕ) → x < 32 → bit_or (bit_or 224 (x / 8 * 8)) (x % 8) ≡ 224 + x
header_fields x h = (==_iff _ (224 + x)).0 (holds_below_sound 32 _ x header_table h)

-- So is `|` of the fields of a mesh header.
pub bit_or_header : (t h : ℕ) → t < 4 → h < 8 → bit_or (bit_or 224 (t * 8)) h ≡ 224 + (t * 8 + h)
bit_or_header t h p q = ground (arith, header_fields (t * 8 + h))

xor_table :
    holds_below 256
      (λ x. holds_below 256 (λ k. (bit_xor (bit_xor x k) k == x) && ltb (bit_xor x k) 256))
    ≡ true
unfolding holds_below
xor_table = refl

-- Masking a byte twice by the same byte gives it back.
pub bit_xor_twice :
    (x k : ℕ) → x < 256 → k < 256 → (bit_xor (bit_xor x k) k ≡ x) × (bit_xor x k < 256)
bit_xor_twice x k hx hk =
    ground (arith, holds_below_sound 256 _ k (holds_below_sound 256 _ x xor_table hx) hk)
