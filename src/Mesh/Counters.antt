-- ===== src/Mesh/Counters.antt =====
-- The statics of `src/mesh.rs`: the channel in use, the uplink identifiers and their contexts.
use chirpstack_gateway_mesh.Common.{
  ℕ, ◌+◌, ◌≤◌, ◌<◌, ◌≡◌, ◌≢◌, refl, ◌==◌, ltb, leb, List, ◌∷◌, Option, none, some, if◌then◌else◌,
  length, get_elem?, in_range, is_empty, arith,
}
use chirpstack_gateway_mesh.Common.Result.{
  Result, ok, panicked, reject_if, ok_or, no_mesh_frequencies, no_uplink_context,
}
use chirpstack_gateway_mesh.Runtime.{State, M, ◌>>=◌, ◌>>◌, pure, lift, inspect}

-- `vec[i]`, which panics out of range.
abbrev pub at_index {ℓ} : {A : Type ℓ} → Option A → Result A
at_index none = panicked
at_index (some a) = ok a

-- `*mesh_channel += 1; if *mesh_channel >= len { *mesh_channel = 0 }`.
unfoldable pub next_channel : ℕ → ℕ → ℕ
next_channel len channel = if leb len (channel + 1) then 0 else channel + 1

unfoldable pub next_uplink_id : ℕ → ℕ
next_uplink_id id = if ltb 4095 (id + 1) then 0 else id + 1

-- `HashMap::insert`.
abbrev pub insert : {A : Type 0} → (ℕ → Option A) → ℕ → A → ℕ → Option A
insert m k v j = if k == j then some v else m j

pub next_channel-lt : (len channel : ℕ) → 0 < len → next_channel len channel < len
unfolding next_channel
next_channel-lt len channel pos = ground arith

module _ {F32 : Type 0} where
  unfoldable pub get_mesh_frequency : List ℕ → M (State F32) ℕ
  unfolding next_channel
  get_mesh_frequency frequencies = do
    lift (reject_if (is_empty frequencies) no_mesh_frequencies)
    λ s.
        let channel = next_channel (length frequencies) s.mesh_channel in
        (at_index (get_elem? frequencies channel), record s { mesh_channel = channel })

  unfoldable pub get_uplink_id : M (State F32) ℕ
  unfolding next_uplink_id
  get_uplink_id = λ s. let id = next_uplink_id s.uplink_id in pure id (record s { uplink_id = id })

  unfoldable pub store_uplink_context : List ℕ → M (State F32) ℕ
  unfolding get_uplink_id
  store_uplink_context ctx = do
    id ← get_uplink_id
    λ s. pure id (record s { uplink_context = insert s.uplink_context id ctx })

  unfoldable pub get_uplink_context : ℕ → M (State F32) (List ℕ)
  get_uplink_context id = inspect (λ s. ok_or (s.uplink_context id) no_uplink_context)

  -- The context that is stored is found under the identifier that is returned, which fits 12 bits;
  -- the contexts of all other identifiers stay.
  pub get_uplink_context-store_uplink_context :
      (ctx : List ℕ) (other : ℕ) (s : State F32)
      → other ≢ next_uplink_id s.uplink_id
      → let id = next_uplink_id s.uplink_id in
        let s' = (store_uplink_context ctx s).1 in
        ((store_uplink_context ctx s).0 ≡ ok id)
        × (id ≤ 4095)
        × ((get_uplink_context id s').0 ≡ ok ctx)
        × ((get_uplink_context other s').0 ≡ (get_uplink_context other s).0)
  unfolding store_uplink_context get_uplink_context ◌>>=◌
  get_uplink_context-store_uplink_context ctx other s ne =
      (refl, ground arith, ground arith, ground arith)

  -- With a frequency configured a call returns one of the configured frequencies, the next in
  -- turn, whatever the channel was before.
  pub get_mesh_frequency_total :
      (f : ℕ) (fs : List ℕ) (s : State F32)
      → let c = next_channel (length (f ∷ fs)) s.mesh_channel in
        (c < length (f ∷ fs))
        × ((r : ℕ) × ((get_mesh_frequency (f ∷ fs) s).0 ≡ ok r) × (get_elem? (f ∷ fs) c ≡ some r))
        × ((get_mesh_frequency (f ∷ fs) s).1.mesh_channel ≡ c)
  unfolding get_mesh_frequency ◌>>=◌
  get_mesh_frequency_total f fs s =
      let c = next_channel (length (f ∷ fs)) s.mesh_channel in
      let lt : c < length (f ∷ fs) =
        next_channel-lt (length (f ∷ fs)) s.mesh_channel (omega arith) in
      let (r, found) = in_range (f ∷ fs) c lt in (lt, (r, rw found refl, found), refl)
