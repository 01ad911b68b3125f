-- ===== src/Packets/Items.antt =====
-- The loops over the events or the commands of a payload, for any item type: `encode` one after the
-- other, and `decode` until the buffer is read.
use chirpstack_gateway_mesh.Common.{
  ℕ, zero, suc, ◌≤◌, ◌<◌, ◌≡◌, refl, List, [], ◌∷◌, ◌++◌, arith, length, length-append, All,
  All-append,
}
use chirpstack_gateway_mesh.Common.Bytes.{IsByte, IsBytes}
use chirpstack_gateway_mesh.Common.Result.{Result, ok, ◌>>=◌, IsSettled, IsSettled->>=}
use chirpstack_gateway_mesh.Common.Cursor.{Reader, decode_loop, decode_loop-cons}

module _ {A : Type 0} (encode : A → Result (List ℕ)) where
  -- `for item in &self.items { b.extend_from_slice(&item.encode()?); }`
  unfoldable pub encode_items : List A → Result (List ℕ)
  encode_items [] = ok []
  encode_items (a ∷ rest) = do b ← encode a; bs ← encode_items rest; ok (b ++ bs)

  -- The item is written as a nonempty list of bytes, which is read back whatever follows.
  pub record IsReadable (decode : Reader A) (a : A) : Type 0 where
    pub first : ℕ
    pub others : List ℕ
    pub encodes : encode a ≡ ok (first ∷ others)
    pub bytes : IsBytes (first ∷ others)
    pub decodes : (rest : List ℕ) → decode (first ∷ (others ++ rest)) ≡ (ok a, rest)

  pub decode_loop-encode_items :
      (decode : Reader A) (items : List A)
      → All (IsReadable decode) items
      → (b : List ℕ) × (encode_items items ≡ ok b)
        × IsBytes b
        × (length items ≤ length b)
        × ((fuel : ℕ) → length b < fuel → decode_loop decode fuel b ≡ ok items)
  unfolding encode_items decode_loop
  decode_loop-encode_items decode [] h = ([], refl, tt, omega arith, λ fuel lt. loop_done fuel lt)
    where
      loop_done : (fuel : ℕ) → 0 < fuel → decode_loop decode fuel [] ≡ ok []
      loop_done zero lt = elim lt [ ]
      loop_done (suc fuel) lt = refl
  decode_loop-encode_items decode (a ∷ items) h =
      let r = h.0 in
      let (b, e, bytes, len, back) = decode_loop-encode_items decode items h.1 in
      (
        r.first ∷ (r.others ++ b),
        rw (r.encodes, e),
        All-append IsByte (r.first ∷ r.others) b r.bytes bytes,
        omega (arith, len, length-append r.others b),
        loop_step r b back,
      )
    where
      loop_step :
          (r : IsReadable decode a) (b : List ℕ)
          → ((fuel : ℕ) → length b < fuel → decode_loop decode fuel b ≡ ok items)
          → (fuel : ℕ) → length (r.first ∷ (r.others ++ b)) < fuel
          → decode_loop decode fuel (r.first ∷ (r.others ++ b)) ≡ ok (a ∷ items)
      loop_step r b back zero lt = elim lt [ ]
      loop_step r b back (suc fuel) lt =
          decode_loop-cons decode fuel r.first (r.others ++ b) b a items (r.decodes b)
            (back fuel (omega (arith, length-append r.others b)))

  pub encode_items-IsSettled :
      ((a : A) → IsSettled (encode a)) → (items : List A) → IsSettled (encode_items items)
  unfolding encode_items
  encode_items-IsSettled each [] = tt
  encode_items-IsSettled each (a ∷ rest) =
      IsSettled->>= (encode a) _ (each a)
        λ b. IsSettled->>= (encode_items rest) _ (encode_items-IsSettled each rest) λ bs. tt
