-- ===== src/Packets/Tlv.antt =====
-- The tag, length and value of an event or a command, as `Event` and `Command` write and read them.
use chirpstack_gateway_mesh.Common.{
  ℕ, ◌%◌, ◌≤◌, ◌<◌, ◌≡◌, refl, List, [], ◌∷◌, ◌++◌, ltb, arith, length, take, drop, if◌then◌else◌,
  length-drop, length-append, take-length-append, drop-length-append, take-append, drop-append, inl,
  inr, Bool-cases,
}
use chirpstack_gateway_mesh.Common.Result.{ok, err, panicked, IsSettled, unexpected_eof}
use chirpstack_gateway_mesh.Common.Cursor.{Reader, ◌>>=◌, lift, read_exact, read_exact-append}

-- `b.push(t); b.push(v.len() as u8); b.extend_from_slice(&v);`
unfoldable pub write_tlv : ℕ → List ℕ → List ℕ
write_tlv t v = t ∷ length v % 256 ∷ v

-- The two bytes of the array; another length would be an index out of range.
read_value : List ℕ → Reader (ℕ × List ℕ)
read_value (tag ∷ len ∷ []) = do value ← read_exact len; lift (ok (tag, value))
read_value _ = lift panicked

unfoldable pub read_tlv : Reader (ℕ × List ℕ)
unfolding read_value
read_tlv = do tag_length ← read_exact 2; read_value tag_length

read_exact_two : (t l : ℕ) (b : List ℕ) → read_exact 2 (t ∷ l ∷ b) ≡ (ok (t ∷ l ∷ []), b)
read_exact_two t l b = read_exact-append (t ∷ l ∷ []) b

-- With both bytes there, the value must be there too.
pub read_tlv-cons :
    (t l : ℕ) (b : List ℕ)
    → read_tlv (t ∷ l ∷ b)
      ≡ (if ltb (length b) l then (err unexpected_eof, []) else (ok (t, take l b), drop l b))
unfolding read_tlv read_exact
read_tlv-cons t l b = rw (read_exact_two t l b) (elim (Bool-cases (ltb (length b) l)) [
  | inl short ↦ rw (short, read_exact)
  | inr long ↦ rw (long, read_exact)
])

pub read_tlv_short : (t : ℕ) → read_tlv (t ∷ []) ≡ (err unexpected_eof, [])
unfolding read_tlv read_exact
read_tlv_short t = refl

-- A call reads at least a byte, and neither panics nor hangs.
pub read_tlv_progress :
    (x : ℕ) (b : List ℕ) → (length (read_tlv (x ∷ b)).1 ≤ length b) × IsSettled (read_tlv (x ∷ b)).0
read_tlv_progress x [] = rw (read_tlv_short x) (omega arith, tt)
read_tlv_progress x (l ∷ b) = rw (read_tlv-cons x l b) (elim (Bool-cases (ltb (length b) l)) [
  | inl short ↦ rw short (omega arith, tt)
  | inr long ↦ rw long (omega (arith, length-drop l b), tt)
])

-- What is written with a length byte of `length v % 256` is read back as that many bytes, and the
-- remainder of the value is left for the next read.
pub read_tlv-write_tlv :
    (t : ℕ) (v rest : List ℕ)
    → read_tlv (write_tlv t v ++ rest)
      ≡ (ok (t, take (length v % 256) v), drop (length v % 256) v ++ rest)
unfolding write_tlv
read_tlv-write_tlv t v rest = ground (
  arith,
  read_tlv-cons t (length v % 256) (v ++ rest),
  length-append v rest,
  take-append (length v % 256) v rest,
  drop-append (length v % 256) v rest,
)

-- A value of at most 255 bytes is read back whole.
pub read_tlv-write_tlv_short :
    (t : ℕ) (v rest : List ℕ)
    → length v < 256
    → read_tlv (write_tlv t v ++ rest) ≡ (ok (t, v), rest)
unfolding write_tlv
read_tlv-write_tlv_short t v rest h = ground (
  arith,
  read_tlv-cons t (length v) (v ++ rest),
  length-append v rest,
  take-length-append v rest,
  drop-length-append v rest,
)
