-- ===== src/Common/Cursor.antt =====
-- `std::io::Cursor<&[u8]>` as the bytes that it has not read yet. A `read_exact` past the end fails
-- and leaves the cursor at the end, as the standard library of Rust 1.85 does.
use chirpstack_gateway_mesh.Common.Tests.{ltb, if◌then◌else◌}
use chirpstack_gateway_mesh.Common.Lists.{
  length, take, drop, length-append, length-drop, take-length-append, drop-length-append, All,
}
use chirpstack_gateway_mesh.Common.Result.{
  Result, ok, err, panicked, diverged, unexpected_eof, IsSettled, ok_injective,
}
use Prim.Native.Nat.{ℕ, zero, suc, ◌≤◌, ◌<◌}
use mathlib.Core.Path.{◌≡◌, refl, ap, ◌∙◌, subst}
use mathlib.Core.List.{List, [], ◌∷◌, ◌++◌}
use native.Mathlib.Omega.{arith}

abbrev pub Reader : Type 0 → Type 0
Reader A = List ℕ → Result A × List ℕ

abbrev pub resume : {A B : Type 0} → Result A × List ℕ → (A → Reader B) → Result B × List ℕ
resume (ok a, rest) f = f a rest
resume (err e, rest) f = (err e, rest)
resume (panicked, rest) f = (panicked, rest)
resume (diverged, rest) f = (diverged, rest)

infixl 5 ◌>>=◌
abbrev pub ◌>>=◌ : {A B : Type 0} → Reader A → (A → Reader B) → Reader B
◌>>=◌ m f b = resume (m b) f

-- A step that follows a settled one settles, and reads no less.
pub resume-IsSettled :
    {A B : Type 0} (r : Result A) (rest : List ℕ) (f : A → Result B)
    → IsSettled r
    → ((a : A) → IsSettled (f a))
    → ((resume (r, rest) (λ a b. (f a, b))).1 ≡ rest)
      × IsSettled (resume (r, rest) (λ a b. (f a, b))).0
resume-IsSettled (ok a) rest f h k = (refl, k a)
resume-IsSettled (err e) rest f h k = (refl, tt)
resume-IsSettled panicked rest f h k = absurd h
resume-IsSettled diverged rest f h k = absurd h

-- A result that does not depend on the cursor.
abbrev pub lift : {A : Type 0} → Result A → Reader A
lift r b = (r, b)

unfoldable pub read_exact : ℕ → Reader (List ℕ)
read_exact n b = if ltb (length b) n then (err unexpected_eof, []) else (ok (take n b), drop n b)

pub read_exact-append : (xs ys : List ℕ) → read_exact (length xs) (xs ++ ys) ≡ (ok xs, ys)
unfolding read_exact
read_exact-append xs ys =
    ground (arith, length-append xs ys, take-length-append xs ys, drop-length-append xs ys)

pub read_exact-le : (n : ℕ) (b : List ℕ) → length (read_exact n b).1 ≤ length b
unfolding read_exact
read_exact-le n b = ground (arith, length-drop n b)

-- One round of the loop below: a decoded item is kept, and an error is logged and skipped.
unfoldable pub keep : {A : Type 0} → Result A → Result (List A) → Result (List A)
keep (ok a) (ok rest) = ok (a ∷ rest)
keep (ok a) rest = rest
keep (err e) rest = rest
keep panicked rest = panicked
keep diverged rest = diverged

-- `while cur.position() < b_len { match decode(&mut cur) { Ok(v) => push(v), Err(e) => warn!(..) } }`
module _ {A : Type 0} (decode : Reader A) where
  unfoldable pub decode_loop : ℕ → List ℕ → Result (List A)
  decode_loop zero b = diverged
  decode_loop (suc fuel) [] = ok []
  decode_loop (suc fuel) (x ∷ b) =
      let rest = decode_loop fuel (decode (x ∷ b)).1 in keep (decode (x ∷ b)).0 rest

  -- Every call reads at least a byte and neither panics nor hangs.
  abbrev pub Progresses : Type 0
  Progresses =
      (x : ℕ) (b : List ℕ) → (length (decode (x ∷ b)).1 ≤ length b) × IsSettled (decode (x ∷ b)).0

  keep_total : (r : Result A) (vs : List A) → IsSettled r → (ws : List A) × (keep r (ok vs) ≡ ok ws)
  unfolding keep
  keep_total (ok a) vs h = (a ∷ vs, refl)
  keep_total (err e) vs h = (vs, refl)
  keep_total panicked vs h = absurd h
  keep_total diverged vs h = absurd h

  -- The loop ends, on every input.
  pub decode_loop_total :
      Progresses
      → (fuel : ℕ) (b : List ℕ) → length b < fuel
      → (vs : List A) × (decode_loop fuel b ≡ ok vs)
  unfolding decode_loop
  decode_loop_total h zero b lt = elim lt [ ]
  decode_loop_total h (suc fuel) [] lt = ([], refl)
  decode_loop_total h (suc fuel) (x ∷ b) lt =
      let (vs, e) = decode_loop_total h fuel (decode (x ∷ b)).1 (omega (arith, h x b)) in
      let (ws, f) = keep_total (decode (x ∷ b)).0 vs (h x b).1 in
      (ws, ap (keep (decode (x ∷ b)).0) e ∙ f)

  -- The items that are written one after the other are read back.
  pub decode_loop-cons :
      (fuel : ℕ) (x : ℕ) (xs rest : List ℕ) (a : A) (vs : List A)
      → decode (x ∷ xs) ≡ (ok a, rest)
      → decode_loop fuel rest ≡ ok vs
      → decode_loop (suc fuel) (x ∷ xs) ≡ ok (a ∷ vs)
  unfolding decode_loop keep
  decode_loop-cons fuel x xs rest a vs e f = rw (e, f)

  -- What holds of every item that a call returns holds of all items of the loop.
  keep-All :
      (P : A → Type 0) (r : Result A) (more : Result (List A)) {vs : List A}
      → ((a : A) → r ≡ ok a → P a)
      → ((ws : List A) → more ≡ ok ws → All P ws)
      → keep r more ≡ ok vs
      → All P vs
  unfolding keep
  keep-All P (ok a) (ok ws) h k e = subst (All P) (ok_injective e) (h a refl, k ws refl)
  keep-All P (ok a) (err x) h k e = absurd (cc e)
  keep-All P (ok a) panicked h k e = absurd (cc e)
  keep-All P (ok a) diverged h k e = absurd (cc e)
  keep-All P (err x) more h k e = k _ e
  keep-All P panicked more h k e = absurd (cc e)
  keep-All P diverged more h k e = absurd (cc e)

  pub decode_loop-All :
      (P : A → Type 0)
      → ((b : List ℕ) (a : A) → (decode b).0 ≡ ok a → P a)
      → (fuel : ℕ) (b : List ℕ) {vs : List A} → decode_loop fuel b ≡ ok vs
      → All P vs
  unfolding decode_loop
  decode_loop-All P h zero b e = absurd (cc e)
  decode_loop-All P h (suc fuel) [] e = subst (All P) (ok_injective e) tt
  decode_loop-All P h (suc fuel) (x ∷ b) e =
      keep-All P (decode (x ∷ b)).0 (decode_loop fuel (decode (x ∷ b)).1) (h (x ∷ b))
        (λ ws f. decode_loop-All P h fuel (decode (x ∷ b)).1 f) e

-- `cur.read_to_end(&mut b)`.
unfoldable pub read_to_end : Reader (List ℕ)
read_to_end b = (ok b, [])
