-- ===== src/Cache/Window.antt =====
-- The cache against the list of all values that it has accepted: it holds the last `size` of them.
use chirpstack_gateway_mesh.Common.{
  ℕ, zero, suc, ◌+◌, ◌-◌, ◌≤◌, ◌<◌, ◌≡◌, refl, sym, ap, ◌∙◌, Bool, true, false, List, [], ◌∷◌, ◌++◌,
  ◌==◌, not, if◌then◌else◌, length, drop, arith, length-append, length-drop, drop-append, inl, inr,
  Bool-cases, ==_iff, append_assoc,
}
use mathlib.Core.Bool.{false≢true}
use mathlib.Core.Path.{subst}
use mathlib.Core.Logic.{◌≢◌}
use chirpstack_gateway_mesh.Cache.Defs.{Cache, contains, add}

-- The last `n` values of a list.
abbrev pub last {ℓ} : {A : Type ℓ} → ℕ → List A → List A
last n xs = drop (length xs - n) xs

-- The cache holds the last `size` values of the history, and room for at least one.
pub record Holds {A : Type 0} (c : Cache A) (history : List A) : Type 0 where
  pub room : 0 < c.size
  pub window : c.deque ≡ last c.size history

-- A cache that is not overfull holds a window on what is in it.
pub full-Holds : {A : Type 0} (c : Cache A) → 0 < c.size → length c.deque ≤ c.size → Holds c c.deque
full-Holds c room fits =
    let none_lost : 0 ≡ length c.deque - c.size = omega (arith, fits) in
    record { room = room; window = ap (λ n. drop n c.deque) none_lost }

module _ {A : Type 0} (eq : A → A → Bool) where
  -- The history after a call: a value that is not among the last `size` is accepted.
  unfoldable pub note : ℕ → List A → A → List A
  note size history value =
      if contains eq (last size history) value then history else history ++ value ∷ []

  note_seen :
      (n : ℕ) (history : List A) (v : A)
      → contains eq (last n history) v ≡ true
      → note n history v ≡ history
  unfolding note
  note_seen n history v e = rw e refl

  note_fresh :
      (n : ℕ) (history : List A) (v : A)
      → contains eq (last n history) v ≡ false
      → note n history v ≡ history ++ v ∷ []
  unfolding note
  note_fresh n history v e = rw e refl

  drop-one : (n : ℕ) (xs : List A) → drop 1 (drop n xs) ≡ drop (suc n) xs
  drop-one zero xs = refl
  drop-one (suc n) [] = refl
  drop-one (suc n) (x ∷ xs) = drop-one n xs

  last-push :
      (n : ℕ) (xs : List A) (v : A)
      → 0 < n
      → last n (xs ++ v ∷ [])
        ≡ (if length (last n xs) == n then drop 1 (last n xs) else last n xs) ++ v ∷ []
  last-push n xs v pos = elim (Bool-cases (length (last n xs) == n)) [
    | inl full ↦
        let eq_n = (==_iff (length (last n xs)) n).0 full in
        let one_more : suc (length xs) - n ≡ suc (length xs - n) =
          omega (arith, eq_n, length-drop (length xs - n) xs) in
        rw full (
          pushed
          ∙ ap (λ k. drop k xs ++ v ∷ []) one_more
          ∙ sym (ap (λ ys. ys ++ v ∷ []) (drop-one (length xs - n) xs)))
    | inr free ↦
        let short : length (last n xs) ≢ n =
          λ e. false≢true (sym free ∙ (==_iff (length (last n xs)) n).1 e) in
        let same : suc (length xs) - n ≡ length xs - n =
          omega (arith, short, length-drop (length xs - n) xs) in
        rw free (pushed ∙ ap (λ k. drop k xs ++ v ∷ []) same)
  ]
    where
      pushed : last n (xs ++ v ∷ []) ≡ drop (suc (length xs) - n) xs ++ v ∷ []
      pushed =
          ap (λ k. drop (k - n) (xs ++ v ∷ [])) (omega (arith, length-append xs (v ∷ [])))
          ∙ drop-append (suc (length xs) - n) xs (v ∷ []) (omega arith)

  -- `add` accepts a value exactly when it is not among the last `size` accepted values, and the
  -- cache then holds the last `size` values of the longer history.
  pub add-Holds :
      (c : Cache A) (history : List A) (value : A)
      → Holds c history
      → Holds (add eq c value).1 (note c.size history value)
        × ((add eq c value).0 ≡ not (contains eq (last c.size history) value))
        × ((add eq c value).1.size ≡ c.size)
  unfolding add note
  add-Holds c history value h = elim (Bool-cases (contains eq (last c.size history) value)) [
    | inl seen ↦ rw (h.window, seen) (record { room = h.room; window = refl }, refl, refl)
    | inr fresh ↦
        rw (h.window, fresh)
          (
            record { room = h.room; window = sym (last-push c.size history value h.room) },
            refl,
            refl,
          )
  ]

  pub contains-append :
      (value : A) (xs ys : List A)
      → eq value value ≡ true
      → contains eq (xs ++ value ∷ ys) value ≡ true
  unfolding contains
  contains-append value [] ys e = rw e refl
  contains-append value (x ∷ xs) ys e = ground (arith, contains-append value xs ys e)

  recent :
      (n : ℕ) (before after : List A) (value : A)
      → eq value value ≡ true
      → length after < n
      → contains eq (last n (before ++ value ∷ after)) value ≡ true
  recent n before after value e lt =
      let k = length (before ++ value ∷ after) - n in
      let in_before : k ≤ length before = omega (arith, length-append before (value ∷ after)) in
      rw (drop-append k before (value ∷ after) in_before)
        (contains-append value (drop k before) after e)

  -- The calls of `add` one after the other.
  abbrev pub add_all : Cache A → List A → Cache A
  add_all c [] = c
  add_all c (value ∷ values) = add_all (add eq c value).1 values

  refused :
      (c : Cache A) (before after values : List A) (value : A)
      → eq value value ≡ true
      → Holds c (before ++ value ∷ after)
      → length after + length values < c.size
      → (add eq (add_all c values) value).0 ≡ false
  refused c before after [] value e h lt =
      (add-Holds c (before ++ value ∷ after) value h).1
      ∙ ap not (recent c.size before after value e (omega arith))
  refused c before after (w ∷ values) value e h lt =
      let history = before ++ value ∷ after in
      let (holds, accepted, size) = add-Holds c history w h in
      elim (Bool-cases (contains eq (last c.size history) w)) [
        | inl seen ↦
            refused (add eq c w).1 before after values value e
              (subst (Holds (add eq c w).1) (note_seen c.size history w seen) holds)
              (omega (arith, size))
        | inr fresh ↦
            refused (add eq c w).1 before (after ++ w ∷ []) values value e
              (subst (Holds (add eq c w).1)
                (note_fresh c.size history w fresh ∙ append_assoc before (value ∷ after) (w ∷ []))
                holds)
              (omega (arith, size, length-append after (w ∷ [])))
      ]

  -- An accepted value is refused again as long as fewer than `size` calls have come in between.
  pub add-replay :
      (c : Cache A) (history values : List A) (value : A)
      → eq value value ≡ true
      → Holds c history
      → (add eq c value).0 ≡ true
      → length values < c.size
      → (add eq (add_all (add eq c value).1 values) value).0 ≡ false
  add-replay c history values value e h first lt =
      let (holds, accepted, size) = add-Holds c history value h in
      let fresh : contains eq (last c.size history) value ≡ false =
        ground (arith, accepted, first) in
      refused (add eq c value).1 history [] values value e
        (subst (Holds (add eq c value).1) (note_fresh c.size history value fresh) holds)
        (omega (arith, size))
