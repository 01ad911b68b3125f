-- ===== src/Helpers/TxPower.antt =====
-- `tx_power_to_index` and `index_to_tx_power`.
pub mod Closest
use chirpstack_gateway_mesh.Common.{
  ℕ, ◌+◌, ◌%◌, ◌≤◌, ◌<◌, ◌≡◌, refl, ◌∙◌, ap, sym, true, false, List, [], ◌∷◌, ◌++◌, Option, none,
  some, length, get_elem?, arith, if◌then◌else◌, Bool-cases, inl, inr, All, length-append,
  append_assoc,
}
use chirpstack_gateway_mesh.Common.Int.{ℤ, ◌≤ℤ◌, leb_ℤ, ltb_ℤ}
use chirpstack_gateway_mesh.Common.Result.{
  Result, ok, panicked, ◌>>=◌, ok_or, no_tx_power, no_tx_power_index,
}
use mathlib.Core.Path.{subst}
use chirpstack_gateway_mesh.Config.{Mappings}

module _ (table : List ℤ) (tx_power : ℤ) where
  -- `match &mut out { .. }` at index `i`: a found index stays only if its power is the wanted one.
  -- An index out of range would panic.
  unfoldable pub better : ℕ → Option ℤ → ℕ → Result (Option ℕ)
  better i none v = panicked
  better i (some q) v = ok (some (if ltb_ℤ q tx_power then i % 256 else v))

  unfoldable pub update : ℕ → Option ℕ → Result (Option ℕ)
  unfolding better
  update i none = ok (some (i % 256))
  update i (some v) = better i (get_elem? table v) v

  -- The loop at index `i`.
  unfoldable pub tx_power_loop : ℕ → Option ℕ → List ℤ → Result (Option ℕ)
  unfolding update
  tx_power_loop i out [] = ok out
  tx_power_loop i out (p ∷ ps) =
      (if leb_ℤ p tx_power then update i out else ok out) >>= λ out'. tx_power_loop (i + 1) out' ps

module _ (conf : Mappings) where
  unfoldable pub tx_power_to_index : ℤ → Result ℕ
  unfolding tx_power_loop
  tx_power_to_index tx_power = do
    out ← tx_power_loop conf.tx_power tx_power 0 none conf.tx_power
    ok_or out no_tx_power

  unfoldable pub index_to_tx_power : ℕ → Result ℤ
  index_to_tx_power tx_power = ok_or (get_elem? conf.tx_power tx_power) no_tx_power_index

-- The choice that the loop makes among the powers before it: none, if all are higher; else the
-- wanted power, if it is among them; else the last one that is not higher.
abbrev pub choose : ℤ → Option ℤ → List ℤ → Option ℤ
choose tx_power best [] = best
choose tx_power none (p ∷ ps) = choose tx_power (if leb_ℤ p tx_power then some p else none) ps
choose tx_power (some q) (p ∷ ps) =
    choose tx_power (some (if leb_ℤ p tx_power then (if ltb_ℤ q tx_power then p else q) else q)) ps

get_elem?-append :
    (before : List ℤ) (p : ℤ) (ps : List ℤ) → get_elem? (before ++ p ∷ ps) (length before) ≡ some p
get_elem?-append [] p ps = refl
get_elem?-append (x ∷ before) p ps = get_elem?-append before p ps

-- The index that the loop holds is that of the choice.
abbrev Agrees : List ℤ → Option ℕ → Option ℤ → Type 0
Agrees table none none = Unit
Agrees table none (some q) = ⊥
Agrees table (some v) none = ⊥
Agrees table (some v) (some q) = get_elem? table v ≡ some q

-- One round of the choice.
abbrev choose_one : ℤ → Option ℤ → ℤ → Option ℤ
choose_one tx_power none p = if leb_ℤ p tx_power then some p else none
choose_one tx_power (some q) p =
    some (if leb_ℤ p tx_power then (if ltb_ℤ q tx_power then p else q) else q)

choose-cons :
    (tx_power : ℤ) (best : Option ℤ) (p : ℤ) (ps : List ℤ)
    → choose tx_power best (p ∷ ps) ≡ choose tx_power (choose_one tx_power best p) ps
choose-cons tx_power none p ps = refl
choose-cons tx_power (some q) p ps = refl

module _ (table : List ℤ) (tx_power : ℤ) where
  round :
      (i : ℕ) (out : Option ℕ) (best : Option ℤ) (p : ℤ)
      → i < 256
      → get_elem? table i ≡ some p
      → Agrees table out best
      → (out' : Option ℕ) × ((if leb_ℤ p tx_power then update table tx_power i out else ok out)
          ≡ ok out')
        × Agrees table out' (choose_one tx_power best p)
  unfolding update better
  round i none none p lt at h = elim (Bool-cases (leb_ℤ p tx_power)) [
    | inl low ↦ rw low (some (i % 256), refl, rw wrap at)
    | inr high ↦ rw high (none, refl, tt)
  ]
    where
      wrap : i % 256 ≡ i
      wrap = omega arith
  round i none (some q) p lt at h = absurd h
  round i (some v) none p lt at h = absurd h
  round i (some v) (some q) p lt at h = elim (Bool-cases (leb_ℤ p tx_power)) [
    | inl low ↦ elim (Bool-cases (ltb_ℤ q tx_power)) [
      | inl below ↦ rw (low, h, below) (some (i % 256), refl, rw wrap at)
      | inr exact ↦ rw (low, h, exact) (some v, refl, h)
    ]
    | inr high ↦ rw high (some v, refl, h)
  ]
    where
      wrap : i % 256 ≡ i
      wrap = omega arith

  loop-Agrees :
      (before ps : List ℤ) (out : Option ℕ) (best : Option ℤ)
      → before ++ ps ≡ table
      → length table ≤ 256
      → Agrees table out best
      → (out' : Option ℕ) × (tx_power_loop table tx_power (length before) out ps ≡ ok out')
        × Agrees table out' (choose tx_power best ps)
  unfolding tx_power_loop
  loop-Agrees before [] out best split fits h = (out, refl, h)
  loop-Agrees before (p ∷ ps) out best split fits h =
      let len = length-append before (p ∷ ps) in
      let total = ap length split in
      let at : get_elem? table (length before) ≡ some p =
        sym (ap (λ t. get_elem? t (length before)) split) ∙ get_elem?-append before p ps in
      let (out1, step, h1) = round (length before) out best p (omega (arith, len, total)) at h in
      let grown = length-append before (p ∷ []) in
      let (out2, rest, h2) =
        loop-Agrees (before ++ p ∷ []) ps out1 (choose_one tx_power best p)
          (append_assoc before (p ∷ []) ps ∙ split) fits h1 in
      let next : length before + 1 ≡ length (before ++ p ∷ []) = omega (arith, grown) in
      (
        out2,
        rw (step, next) rest,
        subst (Agrees table out2) (sym (choose-cons tx_power best p ps)) h2,
      )

agreed :
    (table : List ℤ) (out : Option ℕ) (best : Option ℤ)
    → Agrees table out best
    → (ok_or out no_tx_power >>= λ i. ok_or (get_elem? table i) no_tx_power_index)
      ≡ ok_or best no_tx_power
agreed table none none h = refl
agreed table none (some q) h = absurd h
agreed table (some v) none h = absurd h
agreed table (some v) (some q) h = rw h refl

-- The power at the index for `tx_power` is the choice, in a table of at most 256 entries.
pub index_to_tx_power-tx_power_to_index :
    (conf : Mappings) (tx_power : ℤ)
    → length conf.tx_power ≤ 256
    → (tx_power_to_index conf tx_power >>= index_to_tx_power conf)
      ≡ ok_or (choose tx_power none conf.tx_power) no_tx_power
unfolding tx_power_to_index index_to_tx_power
index_to_tx_power-tx_power_to_index conf tx_power fits =
    let (out, e, h) = loop-Agrees conf.tx_power tx_power [] conf.tx_power none none refl fits tt in
    rw e (agreed conf.tx_power out (choose tx_power none conf.tx_power) h)
