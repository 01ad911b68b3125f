-- ===== src/Aes128.antt =====
-- `src/aes128.rs`: the key type and the keys that are derived from the root key. The AES block
-- cipher is the `aes` crate's, and enters as a parameter.
use Prim.Native.String.{String}
use chirpstack_gateway_mesh.Common.{
  ℕ, ◌≡◌, refl, List, [], ◌∷◌, Bool, true, false, ◌&&◌, ◌==◌, not, length, replicate, if◌then◌else◌,
}
use chirpstack_gateway_mesh.Common.Bytes.{IsBytes}
use chirpstack_gateway_mesh.Common.Result.{
  Result, ok, err, panicked, diverged, ◌>>=◌, ◌>>◌, reject_if, sixteen_bytes_expected, hex_error,
}

pub record Aes128Key : Type 0 where
  pub bytes : List ℕ

unfoldable pub null : Aes128Key
null = record { bytes = replicate 16 0 }

unfoldable pub from_slice : List ℕ → Result Aes128Key
from_slice b = do reject_if (not (length b == 16)) sixteen_bytes_expected; ok (record { bytes = b })

abbrev pub from_bytes : List ℕ → Aes128Key
from_bytes b = record { bytes = b }

abbrev pub to_bytes : Aes128Key → List ℕ
to_bytes key = key.bytes

abbrev pub to_vec : Aes128Key → List ℕ
to_vec key = key.bytes

-- The text of a key, by `hex::encode` and `hex::decode_to_slice` of 16 bytes.
module _ (hex_encode : List ℕ → String) (hex_decode16 : String → Result (List ℕ)) where
  -- `Display`, and `Debug`.
  unfoldable pub fmt : Aes128Key → String
  fmt key = hex_encode key.bytes

  unfoldable pub from_str : String → Result Aes128Key
  from_str s = do bytes ← hex_decode16 s; ok (from_bytes bytes)

  unfoldable pub serialize_key : Aes128Key → String
  unfolding fmt
  serialize_key key = fmt key

  -- The failure is reported as a custom error of the deserializer.
  unfoldable pub visit_str : String → Result Aes128Key
  unfolding from_str
  visit_str value = elim (from_str value) [
    | panicked ↦ panicked
    | diverged ↦ diverged
    | err e ↦ err hex_error
    | ok key ↦ ok key
  ]

  -- A key is read from the text that it is written as, where the texts of 16 bytes are.
  pub visit_str-serialize_key :
      (key : Aes128Key)
      → hex_decode16 (hex_encode key.bytes) ≡ ok key.bytes
      → visit_str (serialize_key key) ≡ ok key
  unfolding visit_str serialize_key
  visit_str-serialize_key key e = rw (visit_str, e) refl

-- The derived equality of the byte arrays.
unfoldable pub bytes_eq : List ℕ → List ℕ → Bool
bytes_eq [] [] = true
bytes_eq (x ∷ xs) (y ∷ ys) = (x == y) && bytes_eq xs ys
bytes_eq _ _ = false

-- `Aes128::new(key)` and `encrypt_block(block)`: the block of 16 bytes for a key and a block.
abbrev pub BlockCipher : Type 0
BlockCipher = List ℕ → List ℕ → List ℕ

-- A block cipher makes 16 bytes of 16 bytes, under a key of 16 bytes.
abbrev pub IsBlockCipher : BlockCipher → Type 0
IsBlockCipher aes =
    (key block : List ℕ)
    → length key ≡ 16
    → length block ≡ 16
    → (length (aes key block) ≡ 16) × IsBytes (aes key block)

module _ (aes : BlockCipher) where
  unfoldable pub get_key : Aes128Key → List ℕ → Aes128Key
  get_key key b = record { bytes = aes key.bytes b }

  unfoldable pub get_signing_key : Aes128Key → Aes128Key
  unfolding get_key
  get_signing_key key = get_key key (replicate 16 0)

  unfoldable pub get_encryption_key : Aes128Key → Aes128Key
  unfolding get_key
  get_encryption_key key = get_key key (0x01 ∷ replicate 15 0)

  -- `if signing_key != null { signing_key } else { get_signing_key(root_key) }`, as at each use.
  unfoldable pub mesh_signing_key : Aes128Key → Aes128Key → Aes128Key
  unfolding null bytes_eq get_signing_key
  mesh_signing_key signing_key root_key =
      if not (bytes_eq signing_key.bytes null.bytes) then signing_key else get_signing_key root_key
