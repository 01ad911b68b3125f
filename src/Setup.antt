-- ===== src/Setup.antt =====
-- Start-up: `setup` of `src/commands.rs` and `src/events.rs`, and the identifiers that `setup` of
-- `src/backend.rs` reads. `parse` stands for `str::parse::<u8>`, `hex_decode` for `hex::decode`.
pub mod Run
pub mod Ready
pub mod Early
pub mod Main
use Prim.Native.String.{String}
use text.Mathlib.Text.{◌==◌}
use chirpstack_gateway_mesh.Common
use chirpstack_gateway_mesh.Common.{
  ℕ, ◌≡◌, ◌≢◌, refl, ◌∙◌, ap, sym, Bool, true, false, ◌&&◌, not, List, [], ◌∷◌, ◌++◌, map, Option,
  none, some, ◌↔◌, ◌⊎◌, All, length, drop, ltb, if◌then◌else◌, arith, Bool-cases, inl, inr,
}
use chirpstack_gateway_mesh.Common.Bytes.{Bytes4, copy4}
use chirpstack_gateway_mesh.Common.Result.{
  Result, ok, err, panicked, diverged, ◌>>=◌, ◌>>◌, reject_if, >>=-eq-ok, ok_injective, already_set,
  relay_id_length,
}
use chirpstack_gateway_mesh.Config
use chirpstack_gateway_mesh.Config.{Configuration, Duration, EventsSet}
use chirpstack_gateway_mesh.Mesh.Counters.{insert}

-- The program and its arguments by type.
abbrev pub Table : Type 0
Table = ℕ → Option (List (List ℕ))

abbrev pub no_commands : Table
no_commands t = none

-- What is started at the end of the setup of the events.
pub data Task : Type 0 where
  heartbeat_loop : Duration → Task
  event_set_loop : List ℕ → Duration → Task

-- `Option::unwrap` and `Result::unwrap`.
abbrev pub unwrap {ℓ} : {A : Type ℓ} → Option A → Result A
unwrap none = panicked
unwrap (some a) = ok a

-- `OnceCell::set`.
abbrev pub set_once : Result Table → Option Table → Result (Unit {0}) × Option Table
set_once (ok m) none = (ok tt, some m)
set_once (ok m) (some old) = (err already_set, some old)
set_once (err e) cell = (err e, cell)
set_once panicked cell = (panicked, cell)
set_once diverged cell = (diverged, cell)

unfoldable pub is_zero : Duration → Bool
is_zero d = Common.◌&&◌ (Common.◌==◌ d.secs 0) (Common.◌==◌ d.nanos 0)

unfoldable pub set_tasks : List EventsSet → List Task
set_tasks [] = []
set_tasks (s ∷ sets) = event_set_loop s.events s.interval ∷ set_tasks sets

unfoldable pub tasks : Config.Events → List Task
unfolding is_zero set_tasks
tasks conf =
    (if is_zero conf.heartbeat_interval then [] else heartbeat_loop conf.heartbeat_interval ∷ [])
    ++ set_tasks conf.sets

-- There is a table, or a panic.
abbrev Collects : Result Table → Type 0
Collects r = ((n : Table) × (r ≡ ok n)) ⊎ (r ≡ panicked)

unwrap-Collects :
    {A : Type 0} (o : Option A) (f : A → Result Table)
    → ((a : A) → Collects (f a))
    → Collects (unwrap o >>= f)
unwrap-Collects none f h = inr refl
unwrap-Collects (some a) f h = h a

module _ (parse : String → Option ℕ) where
  -- `.map(|(k, v)| (k.parse().unwrap(), v.clone())).collect()`: the last entry of a type counts.
  unfoldable pub collect : Table → List (String × List (List ℕ)) → Result Table
  collect m [] = ok m
  collect m ((k, v) ∷ entries) = unwrap (parse k) >>= λ t. collect (insert m t v) entries

  -- `COMMANDS` of `commands` after its setup: only a relay sets it.
  unfoldable pub commands_setup : Configuration → Option Table → Result (Unit {0}) × Option Table
  unfolding collect
  commands_setup conf cell =
      if conf.mesh.border_gateway
      then (ok tt, cell)
      else set_once (collect no_commands conf.commands.commands) cell

  -- `COMMANDS` of `events` after its setup, and the loops that are started.
  unfoldable pub events_setup : Configuration → Option Table → Result (List Task) × Option Table
  unfolding collect tasks
  events_setup conf cell =
      if conf.mesh.border_gateway
      then (ok [], cell)
      else let (done, cell') = set_once (collect no_commands conf.events.commands) cell in
        (done >>= λ u. ok (tasks conf.events), cell')

  -- The key of an entry is a byte.
  abbrev pub IsTyped : String × List (List ℕ) → Type 0
  IsTyped e = (t : ℕ) × (parse e.0 ≡ some t)

  abbrev pub HasOtherType : ℕ → String × List (List ℕ) → Type 0
  HasOtherType t e = parse e.0 ≢ some t

  collected :
      (m : Table) (entries : List (String × List (List ℕ)))
      → All IsTyped entries
      → (n : Table) × (collect m entries ≡ ok n)
        × ((t : ℕ) → All (HasOtherType t) entries → n t ≡ m t)
  unfolding collect
  collected m [] h = (m, refl, λ t o. refl)
  collected m ((k, v) ∷ entries) h =
      let (t, e) = h.0 in
      let (n, done, same) = collected (insert m t v) entries h.1 in
      (n, rw e done, λ j o. same j o.1 ∙ other m t v j (λ p. o.0 (e ∙ ap some p)))
    where
      other : (m : Table) (t : ℕ) (v : List (List ℕ)) (j : ℕ) → (t ≢ j) → insert m t v j ≡ m j
      other m t v j ne = ground (arith, ne)

  unwrapped : {A : Type 0} (o : Option A) {a : A} → unwrap o ≡ ok a → o ≡ some a
  unwrapped none e = absurd (cc e)
  unwrapped (some b) e = ap some (ok_injective e)

  collected-IsTyped :
      (m : Table) (entries : List (String × List (List ℕ))) {n : Table}
      → collect m entries ≡ ok n
      → All IsTyped entries
  unfolding collect
  collected-IsTyped m [] e = tt
  collected-IsTyped m ((k, v) ∷ entries) e =
      let (t, key, rest) = >>=-eq-ok (unwrap (parse k)) (λ t. collect (insert m t v) entries) e in
      ((t, unwrapped (parse k) key), collected-IsTyped (insert m t v) entries rest)

  collect_cases :
      (m : Table) (entries : List (String × List (List ℕ))) → Collects (collect m entries)
  unfolding collect
  collect_cases m [] = inl (m, refl)
  collect_cases m ((k, v) ∷ entries) =
      unwrap-Collects (parse k) _ (λ t. collect_cases (insert m t v) entries)

  -- The entry is found under its type, if no later entry has that type.
  placed :
      (m : Table) (before after : List (String × List (List ℕ))) (k : String) (v : List (List ℕ))
      (t : ℕ)
      → All IsTyped (before ++ (k, v) ∷ after)
      → parse k ≡ some t
      → All (HasOtherType t) after
      → (n : Table) × (collect m (before ++ (k, v) ∷ after) ≡ ok n) × (n t ≡ some v)
  unfolding collect
  placed m [] after k v t h e others =
      let (n, done, same) = collected (insert m t v) after h.1 in
      (n, rw e done, same t others ∙ here)
    where
      here : insert m t v t ≡ some v
      here = ground arith
  placed m ((j, w) ∷ before) after k v t h e others =
      let (i, key) = h.0 in
      let (n, done, found) = placed (insert m i w) before after k v t h.1 e others in
      (n, rw key done, found)

  -- At its start a relay accepts the configured commands exactly when each of their keys is a byte: with
  -- any other key it panics.
  pub commands_setup_iff :
      (conf : Configuration)
      → conf.mesh.border_gateway ≡ false
      → (((commands_setup conf none).0 ≡ ok tt) ↔ All IsTyped conf.commands.commands)
        × (((commands_setup conf none).0 ≡ panicked) ↔ ¬ All IsTyped conf.commands.commands)
  unfolding commands_setup
  commands_setup_iff conf relay =
      let entries = conf.commands.commands in
      rw relay (elim (collect_cases no_commands entries) [
        | inl (n, e) ↦
            let typed = collected-IsTyped no_commands entries e in
            rw e ((λ d. typed, λ h. refl), (λ d. absurd (cc d), λ h. absurd (h typed)))
        | inr e ↦
            let untyped : ¬ All IsTyped entries =
              λ h. let (n, done, same) = collected no_commands entries h in absurd (cc (done, e)) in
            rw e ((λ d. absurd (cc d), λ h. absurd (untyped h)), (λ d. untyped, λ h. refl))
      ])

  -- After the setup of a relay the program of an entry is found under the entry's type, unless a later
  -- entry has the same type.
  pub commands_setup_lookup :
      (conf : Configuration) (before after : List (String × List (List ℕ))) (k : String)
      (v : List (List ℕ)) (t : ℕ)
      → conf.mesh.border_gateway ≡ false
      → conf.commands.commands ≡ before ++ (k, v) ∷ after
      → All IsTyped (before ++ (k, v) ∷ after)
      → parse k ≡ some t
      → All (HasOtherType t) after
      → (n : Table) × (commands_setup conf none ≡ (ok tt, some n)) × (n t ≡ some v)
  unfolding commands_setup
  commands_setup_lookup conf before after k v t relay entries h e others =
      let (n, done, found) = placed no_commands before after k v t h e others in
      (n, rw (relay, entries, done) refl, found)

module _ (hex_decode : String → Result (List ℕ)) where
  -- `gateway_id.copy_from_slice(..)` of eight bytes.
  abbrev pub copy8 : List ℕ → Result (List ℕ)
  copy8 b = if Common.◌==◌ (length b) 8 then ok b else panicked

  -- `&b[4..]`.
  abbrev pub from_fourth : List ℕ → Result (List ℕ)
  from_fourth b = if ltb (length b) 4 then panicked else ok (drop 4 b)

  -- The gateway ID of the Concentratord's answer.
  unfoldable pub gateway_id_of : String → Result (List ℕ)
  gateway_id_of answer = do b ← hex_decode answer; copy8 b

  -- The relay ID of the configuration or, if that has none, of the mesh Concentratord's answer.
  unfoldable pub relay_id_of : String → String → Result Bytes4
  relay_id_of configured answer =
      if configured == "" then (do b ← hex_decode answer; tail ← from_fourth b; copy4 tail) else (do
        b ← hex_decode configured
        reject_if (not (Common.◌==◌ (length b) 4)) relay_id_length
        copy4 b)
