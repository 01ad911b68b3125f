-- ===== src/Packets/Crypt.antt =====
-- `encrypt_events_commands`: AES in counter mode over the events or commands of a payload.
use chirpstack_gateway_mesh.Common.{
  ℕ, zero, suc, ◌+◌, ◌-◌, ◌*◌, ◌/◌, ◌%◌, ◌^◌, ◌<◌, ◌≡◌, refl, sym, ap, ap₂, ◌∙◌, List, [], ◌∷◌,
  ◌++◌, Bool, if◌then◌else◌, bit_xor, length, take, drop, replicate, arith, length-append,
  length-drop, length-take, length-replicate, take-append-drop, take-length-append, All-append,
}
use chirpstack_gateway_mesh.Common.Bytes.{Bytes4, to_list, u32_to_be_bytes, IsBytes}
use chirpstack_gateway_mesh.Common.Bits.{bit_xor_twice}
use chirpstack_gateway_mesh.Common.Result.{Result, ok, ◌>>=◌, IsSettled, IsSettled->>=}
use chirpstack_gateway_mesh.Common.Time.{SystemTime, unix_secs, unix_secs-IsSettled}
use chirpstack_gateway_mesh.Aes128.{Aes128Key, BlockCipher, IsBlockCipher}

-- `for j in 0..16 { b[j] ^= block[j]; }`; a block has 16 bytes.
unfoldable pub xor_bytes : List ℕ → List ℕ → List ℕ
xor_bytes [] ks = []
xor_bytes (x ∷ xs) [] = x ∷ xs
xor_bytes (x ∷ xs) (k ∷ ks) = bit_xor x k ∷ xor_bytes xs ks

-- The block `a` with the counter `c` in its last byte.
unfoldable pub counter_block : Bool → Bytes4 → ℕ → ℕ → List ℕ
counter_block is_command relay_id timestamp c =
    0x01
    ∷ 0
    ∷ 0
    ∷ 0
    ∷ 0
    ∷ (if is_command then 0x01 else 0)
    ∷ (to_list relay_id ++ to_list (u32_to_be_bytes timestamp) ++ 0 ∷ c ∷ [])

module _ (aes : BlockCipher) (key : Aes128Key) (is_command : Bool) (relay_id : Bytes4) where
  -- The loop over the blocks, at block `i`, with `left` blocks to go.
  unfoldable pub encrypt_blocks : ℕ → ℕ → ℕ → List ℕ → List ℕ
  unfolding xor_bytes counter_block
  encrypt_blocks timestamp zero i b = b
  encrypt_blocks timestamp (suc left) i b =
      xor_bytes (take 16 b)
        (aes key.bytes (counter_block is_command relay_id timestamp ((i + 1) % 256)))
      ++ encrypt_blocks timestamp left (i + 1) (drop 16 b)

  unfoldable pub encrypt_padded : ℕ → List ℕ → List ℕ
  unfolding encrypt_blocks
  encrypt_padded timestamp payload =
      let b = payload ++ replicate (16 - length payload % 16) 0 in
      take (length payload) (encrypt_blocks timestamp (length b / 16) 0 b)

  unfoldable pub encrypt_events_commands : SystemTime → List ℕ → Result (List ℕ)
  unfolding encrypt_padded
  encrypt_events_commands timestamp [] = ok []
  encrypt_events_commands timestamp (x ∷ payload) = do
    secs ← unix_secs timestamp
    ok (encrypt_padded (secs % 2 ^ 32) (x ∷ payload))

pub encrypt_events_commands-IsSettled :
    (aes : BlockCipher) (key : Aes128Key) (is_command : Bool) (relay_id : Bytes4) (t : SystemTime)
    (payload : List ℕ)
    → IsSettled (encrypt_events_commands aes key is_command relay_id t payload)
unfolding encrypt_events_commands
encrypt_events_commands-IsSettled aes key is_command relay_id t [] = tt
encrypt_events_commands-IsSettled aes key is_command relay_id t (x ∷ payload) =
    IsSettled->>= (unix_secs t)
      (λ secs. ok (encrypt_padded aes key is_command relay_id (secs % 2 ^ 32) (x ∷ payload)))
      (unix_secs-IsSettled t) (λ secs. tt)

-- The reference: the blocks for the counters from `i + 1` on, one after the other.
unfoldable pub keystream : BlockCipher → Aes128Key → Bool → Bytes4 → ℕ → ℕ → ℕ → List ℕ
keystream aes key is_command relay_id timestamp zero i = []
keystream aes key is_command relay_id timestamp (suc left) i =
    aes key.bytes (counter_block is_command relay_id timestamp ((i + 1) % 256))
    ++ keystream aes key is_command relay_id timestamp left (i + 1)

-- The number of blocks that a payload takes.
abbrev pub block_count : List ℕ → ℕ
block_count payload = length payload / 16 + 1

xor_bytes-append :
    (xs ys ks ls : List ℕ)
    → length xs ≡ length ks
    → xor_bytes xs ks ++ xor_bytes ys ls ≡ xor_bytes (xs ++ ys) (ks ++ ls)
unfolding xor_bytes
xor_bytes-append [] ys [] ls e = refl
xor_bytes-append [] ys (k ∷ ks) ls e = absurd (omega arith)
xor_bytes-append (x ∷ xs) ys [] ls e = absurd (omega arith)
xor_bytes-append (x ∷ xs) ys (k ∷ ks) ls e =
    ap (◌∷◌ (bit_xor x k)) (xor_bytes-append xs ys ks ls (omega arith))

take-xor_bytes : (xs ys ks : List ℕ) → take (length xs) (xor_bytes (xs ++ ys) ks) ≡ xor_bytes xs ks
unfolding xor_bytes
take-xor_bytes [] ys ks = refl
take-xor_bytes (x ∷ xs) ys [] = ap (◌∷◌ x) (take-length-append xs ys)
take-xor_bytes (x ∷ xs) ys (k ∷ ks) = ap (◌∷◌ (bit_xor x k)) (take-xor_bytes xs ys ks)

-- Masking twice with the same stream of bytes gives the bytes back, and keeps the length.
xor_bytes_twice :
    (xs ks : List ℕ)
    → IsBytes xs
    → IsBytes ks
    → (xor_bytes (xor_bytes xs ks) ks ≡ xs)
      × IsBytes (xor_bytes xs ks)
      × (length (xor_bytes xs ks) ≡ length xs)
unfolding xor_bytes
xor_bytes_twice [] ks p q = (refl, tt, refl)
xor_bytes_twice (x ∷ xs) [] p q = (refl, p, refl)
xor_bytes_twice (x ∷ xs) (k ∷ ks) p q =
    let (e, bytes, len) = xor_bytes_twice xs ks p.1 q.1 in
    let (back, byte) = bit_xor_twice x k p.0 q.0 in
    (ap₂ ◌∷◌ back e, (byte, bytes), omega (arith, len))

module _ (aes : BlockCipher) (cipher : IsBlockCipher aes) (key : Aes128Key)
    (sixteen : length key.bytes ≡ 16) (is_command : Bool) (relay_id : Bytes4) where
  block_shape :
      (ts c : ℕ)
      → (length (aes key.bytes (counter_block is_command relay_id ts c)) ≡ 16)
        × IsBytes (aes key.bytes (counter_block is_command relay_id ts c))
  unfolding counter_block
  block_shape ts c = cipher key.bytes (counter_block is_command relay_id ts c) sixteen refl

  keystream-IsBytes : (ts left i : ℕ) → IsBytes (keystream aes key is_command relay_id ts left i)
  unfolding keystream
  keystream-IsBytes ts zero i = tt
  keystream-IsBytes ts (suc left) i =
      All-append _ _ _ (block_shape ts ((i + 1) % 256)).1 (keystream-IsBytes ts left (i + 1))

  encrypt_blocks-xor :
      (ts left i : ℕ) (b : List ℕ)
      → length b ≡ left * 16
      → encrypt_blocks aes key is_command relay_id ts left i b
        ≡ xor_bytes b (keystream aes key is_command relay_id ts left i)
  unfolding encrypt_blocks keystream
  encrypt_blocks-xor ts zero i [] e = unfold xor_bytes in refl
  encrypt_blocks-xor ts zero i (x ∷ b) e = absurd (omega arith)
  encrypt_blocks-xor ts (suc left) i b e =
      ap (◌++◌ _) (encrypt_blocks-xor ts left (i + 1) (drop 16 b) (omega (arith, length-drop 16 b)))
      ∙ xor_bytes-append (take 16 b) (drop 16 b) _ _
          (omega (arith, length-take 16 b, block_shape ts ((i + 1) % 256)))
      ∙ ap (λ t. xor_bytes t (keystream aes key is_command relay_id ts (suc left) i))
          (take-append-drop 16 b)

  encrypt_step :
      (t : SystemTime) (m : ℕ) (p : List ℕ)
      → unix_secs t ≡ ok m
      → 0 < length p
      → encrypt_events_commands aes key is_command relay_id t p
        ≡ ok (encrypt_padded aes key is_command relay_id (m % 2 ^ 32) p)
  encrypt_step t m [] e pos = absurd (omega arith)
  encrypt_step t m (x ∷ p) e pos = unfold encrypt_events_commands in rw e

  -- The padded loop over blocks is the byte-wise xor with the counter-mode keystream.
  pub encrypt_padded-xor :
      (ts : ℕ) (payload : List ℕ)
      → encrypt_padded aes key is_command relay_id ts payload
        ≡ xor_bytes payload (keystream aes key is_command relay_id ts (block_count payload) 0)
  unfolding encrypt_padded
  encrypt_padded-xor ts payload =
      let pad = replicate (16 - length payload % 16) 0 in
      let blocks : length (payload ++ pad) ≡ block_count payload * 16 =
        omega (
          arith,
          length-append payload pad,
          length-replicate {A = ℕ} (16 - length payload % 16) 0,
        ) in
      let count : length (payload ++ pad) / 16 ≡ block_count payload = omega arith in
      ap
        (λ n.
          take (length payload)
            (encrypt_blocks aes key is_command relay_id ts n 0 (payload ++ pad)))
        count
      ∙ ap (take (length payload))
          (encrypt_blocks-xor ts (block_count payload) 0 (payload ++ pad) blocks)
      ∙ take-xor_bytes payload pad _

  -- The mask of a payload is kept, since its ciphertext is as long.
  encrypt_padded_twice :
      (ts : ℕ) (payload : List ℕ)
      → IsBytes payload
      → let c = encrypt_padded aes key is_command relay_id ts payload in
        (encrypt_padded aes key is_command relay_id ts c ≡ payload)
        × IsBytes c
        × (length c ≡ length payload)
  encrypt_padded_twice ts payload bytes =
      let stream = λ (p : List ℕ). keystream aes key is_command relay_id ts (block_count p) 0 in
      let (back, c_bytes, len) =
        xor_bytes_twice payload (stream payload) bytes (keystream-IsBytes ts _ 0) in
      rw (encrypt_padded-xor ts payload) (
        encrypt_padded-xor ts (xor_bytes payload (stream payload))
            ∙ ap
                (λ n.
                  xor_bytes (xor_bytes payload (stream payload))
                    (keystream aes key is_command relay_id ts (n / 16 + 1) 0))
                len
            ∙ back,
        c_bytes,
        len,
      )

  -- Encryption is its own inverse: it succeeds from the epoch on, keeps the length, and a second
  -- run at a time with the same 32-bit seconds gives the payload back.
  pub encrypt_events_commands_twice :
      (t u : SystemTime) (m n : ℕ) (payload : List ℕ)
      → unix_secs t ≡ ok m
      → unix_secs u ≡ ok n
      → m % 2 ^ 32 ≡ n % 2 ^ 32
      → IsBytes payload
      → (c : List ℕ) × (encrypt_events_commands aes key is_command relay_id t payload ≡ ok c)
        × (encrypt_events_commands aes key is_command relay_id u c ≡ ok payload)
        × IsBytes c
        × (length c ≡ length payload)
  encrypt_events_commands_twice t u m n [] et eu same bytes =
      ([], unfold encrypt_events_commands in refl, unfold encrypt_events_commands in refl, tt, refl)
  encrypt_events_commands_twice t u m n (x ∷ payload) et eu same bytes =
      let c = encrypt_padded aes key is_command relay_id (m % 2 ^ 32) (x ∷ payload) in
      let (back, c_bytes, len) = encrypt_padded_twice (m % 2 ^ 32) (x ∷ payload) bytes in
      (
        c,
        encrypt_step t m (x ∷ payload) et (omega arith),
        encrypt_step u n c eu (omega (arith, len))
            ∙ ap ok (ap (λ s. encrypt_padded aes key is_command relay_id s c) (sym same) ∙ back),
        c_bytes,
        len,
      )
