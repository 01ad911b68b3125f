-- ===== src/Helpers/TxPower/Closest.antt =====
-- Which power `tx_power_to_index` picks in a sorted table.
use chirpstack_gateway_mesh.Common.{
  ℕ, get_elem?, ◌≤◌, ◌≡◌, refl, ◌∙◌, ap, sym, true, false, List, [], ◌∷◌, none, some, length, arith,
  if◌then◌else◌, All,
}
use chirpstack_gateway_mesh.Common.Int.{ℤ, ◌≤ℤ◌, leb_ℤ, ltb_ℤ}
use chirpstack_gateway_mesh.Common.Result.{
  ok, ◌>>=◌, ok_or, no_tx_power, no_tx_power_index, >>=-eq-ok, ok_or_injective,
}
use mathlib.Core.Path.{subst}
use chirpstack_gateway_mesh.Config.{Mappings}
use chirpstack_gateway_mesh.Helpers.TxPower.{
  tx_power_to_index, index_to_tx_power, choose, index_to_tx_power-tx_power_to_index,
}

-- The powers rise from `q` on.
abbrev pub Ascending : ℤ → List ℤ → Type 0
Ascending q [] = Unit
Ascending q (p ∷ ps) = (q ≤ℤ p) × Ascending p ps

Ascending-trans : (q p : ℤ) (ps : List ℤ) → q ≤ℤ p → Ascending p ps → Ascending q ps
Ascending-trans q p [] le h = tt
Ascending-trans q p (r ∷ ps) le h = (omega arith, h.1)

abbrev pick : ℤ → ℤ → ℤ → ℤ
pick tx_power q p = if leb_ℤ p tx_power then (if ltb_ℤ q tx_power then p else q) else q

pick_bounds :
    (tx_power q p : ℤ)
    → q ≤ℤ tx_power
    → q ≤ℤ p
    → (pick tx_power q p ≤ℤ tx_power)
      × (q ≤ℤ pick tx_power q p)
      × (p ≤ℤ tx_power → p ≤ℤ pick tx_power q p)
pick_bounds tx_power q p le up = (ground arith, ground arith, λ pl. ground arith)

pick-Ascending :
    (tx_power q p : ℤ) (ps : List ℤ) → q ≤ℤ p → Ascending p ps → Ascending (pick tx_power q p) ps
pick-Ascending tx_power q p ps le h =
    elim (leb_ℤ p tx_power)
      as (λ b. Ascending (if b then (if ltb_ℤ q tx_power then p else q) else q) ps) [
        | true ↦ elim (ltb_ℤ q tx_power) as (λ b. Ascending (if b then p else q) ps) [
          | true ↦ h
          | false ↦ Ascending-trans q p ps le h
        ]
        | false ↦ Ascending-trans q p ps le h
      ]

-- In a rising table the choice after `q` is the closest power that is not higher.
choose_closest :
    (tx_power q : ℤ) (ps : List ℤ)
    → q ≤ℤ tx_power
    → Ascending q ps
    → (r : ℤ) × (choose tx_power (some q) ps ≡ some r)
      × (q ≤ℤ r)
      × (r ≤ℤ tx_power)
      × All (λ p. p ≤ℤ tx_power → p ≤ℤ r) ps
choose_closest tx_power q [] le h = (q, refl, omega arith, le, tt)
choose_closest tx_power q (p ∷ ps) le h =
    let q' = pick tx_power q p in
    let (low, up, reaches) = pick_bounds tx_power q p le h.0 in
    let (r, e, le', low', all) =
      choose_closest tx_power q' ps low (pick-Ascending tx_power q p ps h.0 h.1) in
    (r, e, omega (arith, up, le'), low', (λ pl. omega (arith, reaches pl, le'), all))

-- The power at an index is the one of the table.
listed :
    (conf : Mappings) (tx_power q : ℤ)
    → (tx_power_to_index conf tx_power >>= index_to_tx_power conf) ≡ ok q
    → (i : ℕ) × (tx_power_to_index conf tx_power ≡ ok i) × (get_elem? conf.tx_power i ≡ some q)
unfolding index_to_tx_power
listed conf tx_power q e =
    let (i, index, power) =
      >>=-eq-ok (tx_power_to_index conf tx_power) (index_to_tx_power conf) e in
    (i, index, ok_or_injective (get_elem? conf.tx_power i) no_tx_power_index power)

-- In a rising table of at most 256 powers the index is that of the closest configured power that is not
-- higher than the wanted one, and there is one if the first is not.
pub tx_power_closest :
    (conf : Mappings) (tx_power first : ℤ) (rest : List ℤ)
    → conf.tx_power ≡ first ∷ rest
    → length conf.tx_power ≤ 256
    → Ascending first rest
    → first ≤ℤ tx_power
    → (q : ℤ) × ((i : ℕ) × (tx_power_to_index conf tx_power ≡ ok i)
        × (get_elem? conf.tx_power i ≡ some q))
      × (q ≤ℤ tx_power)
      × All (λ p. p ≤ℤ tx_power → p ≤ℤ q) conf.tx_power
tx_power_closest conf tx_power first rest e fits rising le =
    let (q, chosen, up, low, all) = choose_closest tx_power first rest le rising in
    let low_first : leb_ℤ first tx_power ≡ true = ground arith in
    let start : choose tx_power none (first ∷ rest) ≡ some q = rw low_first chosen in
    (
      q,
      listed conf tx_power q (
          index_to_tx_power-tx_power_to_index conf tx_power fits
          ∙ ap (λ t. ok_or (choose tx_power none t) no_tx_power) e
          ∙ ap (λ o. ok_or o no_tx_power) start),
      low,
      subst (All (λ p. p ≤ℤ tx_power → p ≤ℤ q)) (sym e) ((λ pl. up), all),
    )

-- The powers fall from `q` on.
abbrev pub Descending : ℤ → List ℤ → Type 0
Descending q [] = Unit
Descending q (p ∷ ps) = (p ≤ℤ q) × Descending p ps

abbrev pub final : ℤ → List ℤ → ℤ
final q [] = q
final q (p ∷ ps) = final p ps

choose_last :
    (tx_power q : ℤ) (ps : List ℤ)
    → ltb_ℤ q tx_power ≡ true
    → Descending q ps
    → choose tx_power (some q) ps ≡ some (final q ps)
choose_last tx_power q [] lt h = refl
choose_last tx_power q (p ∷ ps) lt h =
    let low : leb_ℤ p tx_power ≡ true = ground (arith, h.0) in
    let below : ltb_ℤ p tx_power ≡ true = ground (arith, h.0) in
    rw (low, lt) (choose_last tx_power p ps below h.1)

-- In a falling table of at most 256 powers, all below the wanted one, the mapping picks the lowest
-- power: the last entry.
pub tx_power_lowest :
    (conf : Mappings) (tx_power first : ℤ) (rest : List ℤ)
    → conf.tx_power ≡ first ∷ rest
    → length conf.tx_power ≤ 256
    → Descending first rest
    → ltb_ℤ first tx_power ≡ true
    → (tx_power_to_index conf tx_power >>= index_to_tx_power conf) ≡ ok (final first rest)
tx_power_lowest conf tx_power first rest e fits falling lt =
    let low_first : leb_ℤ first tx_power ≡ true = ground arith in
    let start : choose tx_power none (first ∷ rest) ≡ some (final first rest) =
      rw low_first (choose_last tx_power first rest lt falling) in
    index_to_tx_power-tx_power_to_index conf tx_power fits
    ∙ ap (λ t. ok_or (choose tx_power none t) no_tx_power) e
    ∙ ap (λ o. ok_or o no_tx_power) start
