-- ===== src/Common/Bytes.antt =====
-- Bytes are numbers below 256, `&[u8]` and `Vec<u8>` are lists of them, and an array `[u8; n]` is
-- a record, so that its length is known.
use chirpstack_gateway_mesh.Common.Lists.{All, length}
use chirpstack_gateway_mesh.Common.Result.{Result, ok, panicked, IsSettled}
use Prim.Native.Nat.{ℕ, ◌+◌, ◌*◌, ◌/◌, ◌%◌, ◌<◌}
use mathlib.Core.Path.{◌≡◌}
use mathlib.Core.List.{List, [], ◌∷◌}
use native.Mathlib.Omega.{arith}

abbrev pub IsByte : ℕ → Type 0
IsByte x = x < 256

abbrev pub IsBytes : List ℕ → Type 0
IsBytes = All IsByte

pub record Bytes4 : Type 0 where
  pub b0 : ℕ
  pub b1 : ℕ
  pub b2 : ℕ
  pub b3 : ℕ

abbrev pub bytes4 : ℕ → ℕ → ℕ → ℕ → Bytes4
bytes4 x0 x1 x2 x3 = record { b0 = x0; b1 = x1; b2 = x2; b3 = x3 }

abbrev pub to_list : Bytes4 → List ℕ
to_list a = a.b0 ∷ a.b1 ∷ a.b2 ∷ a.b3 ∷ []

pub record Bytes5 : Type 0 where
  pub b0 : ℕ
  pub b1 : ℕ
  pub b2 : ℕ
  pub b3 : ℕ
  pub b4 : ℕ

pub record Bytes6 : Type 0 where
  pub b0 : ℕ
  pub b1 : ℕ
  pub b2 : ℕ
  pub b3 : ℕ
  pub b4 : ℕ
  pub b5 : ℕ

abbrev pub bytes5 : ℕ → ℕ → ℕ → ℕ → ℕ → Bytes5
bytes5 x0 x1 x2 x3 x4 = record { b0 = x0; b1 = x1; b2 = x2; b3 = x3; b4 = x4 }

abbrev pub bytes6 : ℕ → ℕ → ℕ → ℕ → ℕ → ℕ → Bytes6
bytes6 x0 x1 x2 x3 x4 x5 = record { b0 = x0; b1 = x1; b2 = x2; b3 = x3; b4 = x4; b5 = x5 }

abbrev pub to_list5 : Bytes5 → List ℕ
to_list5 a = a.b0 ∷ a.b1 ∷ a.b2 ∷ a.b3 ∷ a.b4 ∷ []

abbrev pub to_list6 : Bytes6 → List ℕ
to_list6 a = a.b0 ∷ a.b1 ∷ a.b2 ∷ a.b3 ∷ a.b4 ∷ a.b5 ∷ []

-- `array.copy_from_slice(b)`, which panics where the lengths differ.
abbrev pub copy4 : List ℕ → Result Bytes4
copy4 (x0 ∷ x1 ∷ x2 ∷ x3 ∷ []) = ok (bytes4 x0 x1 x2 x3)
copy4 _ = panicked

abbrev pub copy5 : List ℕ → Result Bytes5
copy5 (x0 ∷ x1 ∷ x2 ∷ x3 ∷ x4 ∷ []) = ok (bytes5 x0 x1 x2 x3 x4)
copy5 _ = panicked

abbrev pub copy6 : List ℕ → Result Bytes6
copy6 (x0 ∷ x1 ∷ x2 ∷ x3 ∷ x4 ∷ x5 ∷ []) = ok (bytes6 x0 x1 x2 x3 x4 x5)
copy6 _ = panicked

pub copy4-IsSettled : (b : List ℕ) → length b ≡ 4 → IsSettled (copy4 b)
copy4-IsSettled (x0 ∷ x1 ∷ x2 ∷ x3 ∷ []) h = tt
copy4-IsSettled (x0 ∷ x1 ∷ x2 ∷ x3 ∷ x4 ∷ b) h = absurd (omega arith)
copy4-IsSettled _ h = absurd (omega arith)

pub copy5-IsSettled : (b : List ℕ) → length b ≡ 5 → IsSettled (copy5 b)
copy5-IsSettled (x0 ∷ x1 ∷ x2 ∷ x3 ∷ x4 ∷ []) h = tt
copy5-IsSettled (x0 ∷ x1 ∷ x2 ∷ x3 ∷ x4 ∷ x5 ∷ b) h = absurd (omega arith)
copy5-IsSettled _ h = absurd (omega arith)

pub copy6-IsSettled : (b : List ℕ) → length b ≡ 6 → IsSettled (copy6 b)
copy6-IsSettled (x0 ∷ x1 ∷ x2 ∷ x3 ∷ x4 ∷ x5 ∷ []) h = tt
copy6-IsSettled (x0 ∷ x1 ∷ x2 ∷ x3 ∷ x4 ∷ x5 ∷ x6 ∷ b) h = absurd (omega arith)
copy6-IsSettled _ h = absurd (omega arith)

pub record IsBytes5 (a : Bytes5) : Type 0 where
  pub byte0 : IsByte a.b0
  pub byte1 : IsByte a.b1
  pub byte2 : IsByte a.b2
  pub byte3 : IsByte a.b3
  pub byte4 : IsByte a.b4

pub record IsBytes6 (a : Bytes6) : Type 0 where
  pub byte0 : IsByte a.b0
  pub byte1 : IsByte a.b1
  pub byte2 : IsByte a.b2
  pub byte3 : IsByte a.b3
  pub byte4 : IsByte a.b4
  pub byte5 : IsByte a.b5

pub record IsBytes4 (a : Bytes4) : Type 0 where
  pub byte0 : IsByte a.b0
  pub byte1 : IsByte a.b1
  pub byte2 : IsByte a.b2
  pub byte3 : IsByte a.b3

-- `u32::to_be_bytes` and `u32::from_be_bytes`.
abbrev pub u32_to_be_bytes : ℕ → Bytes4
u32_to_be_bytes x = bytes4 (x / 16777216 % 256) (x / 65536 % 256) (x / 256 % 256) (x % 256)

abbrev pub u32_from_be_bytes : Bytes4 → ℕ
u32_from_be_bytes a = a.b0 * 16777216 + a.b1 * 65536 + a.b2 * 256 + a.b3

-- `u16::from_be_bytes`.
abbrev pub u16_from_be_bytes : ℕ → ℕ → ℕ
u16_from_be_bytes x0 x1 = x0 * 256 + x1

pub u32_from_be_bytes-u32_to_be_bytes :
    (x : ℕ) → x < 4294967296 → u32_from_be_bytes (u32_to_be_bytes x) ≡ x
u32_from_be_bytes-u32_to_be_bytes x h = omega arith

pub u32_to_be_bytes-IsBytes4 : (x : ℕ) → IsBytes4 (u32_to_be_bytes x)
u32_to_be_bytes-IsBytes4 x = omega arith
