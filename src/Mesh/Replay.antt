-- ===== src/Mesh/Replay.antt =====
-- A mesh packet that has been handled is dropped when it arrives again.
use chirpstack_gateway_mesh.Common.{
  ℕ, ◌≤◌, ◌<◌, ◌≡◌, refl, sym, ◌∙◌, ap, Bool, true, false, List, [], ◌∷◌, ◌++◌, length,
  length-append, inl, inr, arith, Bool-cases,
}
use chirpstack_gateway_mesh.Common.Result.{Result, ok, err, panicked, diverged}
use chirpstack_gateway_mesh.Packets.PayloadType
use chirpstack_gateway_mesh.Packets.PayloadType.{PayloadType}
use chirpstack_gateway_mesh.Packets.MeshPacket
use chirpstack_gateway_mesh.Packets.MeshPacket.{MeshPacket, Payload}
use chirpstack_gateway_mesh.Cache
use chirpstack_gateway_mesh.Cache.PayloadCache.{PayloadCache, payload_cache_eq, from_packet}
use chirpstack_gateway_mesh.Gw.{UplinkFrame}
use chirpstack_gateway_mesh.Runtime.{State, Env, M, ◌>>=◌, lift, pure}
use chirpstack_gateway_mesh.Backend.{emit, random}
use chirpstack_gateway_mesh.Commands.{set_last_timestamp}
use chirpstack_gateway_mesh.Events.{now}
use chirpstack_gateway_mesh.Mesh.Counters.{get_mesh_frequency}
use chirpstack_gateway_mesh.Mesh.Send.{signing_key}
use chirpstack_gateway_mesh.Mesh.Counters.{store_uplink_context, get_uplink_id}
use chirpstack_gateway_mesh.Node.Stable.{IsStable}
use chirpstack_gateway_mesh.Node.Entries.{handle_fresh-Keeps, dispatch-Keeps}
use chirpstack_gateway_mesh.Mesh.Handle.{handle_fresh, handle_valid, handle_mesh, add_to_cache}

-- A key equals itself.
payload_cache_eq_refl : (key : PayloadCache) → payload_cache_eq key key ≡ true
unfolding payload_cache_eq MeshPacket.mic_eq PayloadType.to_byte
payload_cache_eq_refl key = ground arith

module _ {F32 : Type 0} (env : Env F32) where
  -- Nothing but `add_to_cache` changes the payload cache.
  unchanged-IsStable : (c : Cache.Cache PayloadCache) → IsStable env (λ s. s.payload_cache ≡ c)
  unfolding random now get_mesh_frequency store_uplink_context set_last_timestamp emit ◌>>=◌
      get_uplink_id
  unchanged-IsStable c = record {
    random = record { at = λ s h. h };
    now = record { at = λ s h. h };
    frequency = record { at = λ s h. ground (arith, h) };
    store = λ ctx. record { at = λ s h. h };
    timestamp = λ ts. record { at = λ s h. h };
    mesh = λ pl m. record { at = λ s h. h };
    downlink = λ pl. record { at = λ s h. h };
    configuration = λ pl. record { at = λ s h. h };
  }

  pub valid_packet :
      (b : Bool) (pl : UplinkFrame F32) (packet : MeshPacket) (s : State F32)
      → MeshPacket.from_slice pl.phy_payload ≡ ok packet
      → MeshPacket.validate_mic env.cmac (signing_key env) packet ≡ ok true
      → handle_mesh env b pl s ≡ handle_valid env b pl packet true s
  unfolding handle_mesh ◌>>=◌
  valid_packet b pl packet s parsed valid =
      let next : MeshPacket → M (State F32) (Unit {0}) = λ p.
        lift (MeshPacket.validate_mic env.cmac (signing_key env) p) >>= λ v.
        handle_valid env b pl p v in
      ap (λ r. (lift r >>= next) s) parsed
      ∙ ap (λ r. (lift r >>= handle_valid env b pl packet) s) valid

-- A key is in the cache after it was added.
added_key :
    (c : Cache.Cache PayloadCache) (key : PayloadCache)
    → Cache.contains payload_cache_eq (Cache.add payload_cache_eq c key).1.deque key ≡ true
unfolding Cache.add
added_key c key = elim (Bool-cases (Cache.contains payload_cache_eq c.deque key)) [
  | inl seen ↦ rw seen seen
  | inr fresh ↦
      rw fresh (Cache.contains-append payload_cache_eq key _ [] (payload_cache_eq_refl key))
]

-- A key that is not in the cache is accepted, and one that is refused is in it.
accepts :
    (c : Cache.Cache PayloadCache) (key : PayloadCache)
    → Cache.contains payload_cache_eq c.deque key ≡ false
    → (Cache.add payload_cache_eq c key).0 ≡ true
unfolding Cache.add
accepts c key fresh = rw fresh refl

refused_seen :
    (c : Cache.Cache PayloadCache) (key : PayloadCache)
    → (Cache.add payload_cache_eq c key).0 ≡ false
    → Cache.contains payload_cache_eq c.deque key ≡ true
unfolding Cache.add
refused_seen c key refused = elim (Bool-cases (Cache.contains payload_cache_eq c.deque key)) [
  | inl seen ↦ seen
  | inr fresh ↦ absurd (cc (sym refused ∙ accepts c key fresh))
]

add_all-append :
    (c : Cache.Cache PayloadCache) (keys more : List PayloadCache)
    → Cache.add_all payload_cache_eq (Cache.add_all payload_cache_eq c keys) more
      ≡ Cache.add_all payload_cache_eq c (keys ++ more)
add_all-append c [] more = refl
add_all-append c (key ∷ keys) more = add_all-append (Cache.add payload_cache_eq c key).1 keys more

module _ {F32 : Type 0} (env : Env F32) where
  seen_packet :
      (b : Bool) (pl : UplinkFrame F32) (packet : MeshPacket) (s : State F32)
      → Cache.contains payload_cache_eq s.payload_cache.deque (from_packet packet) ≡ true
      → handle_valid env b pl packet true s ≡ (ok tt, s)
  unfolding handle_valid add_to_cache Cache.add handle_fresh ◌>>=◌
  seen_packet b pl packet s seen = rw seen refl

  -- A packet with a correct code is added to the cache, and nothing else changes the cache.
  valid_adds :
      (b : Bool) (pl : UplinkFrame F32) (packet : MeshPacket) (s : State F32)
      → (handle_valid env b pl packet true s).1.payload_cache
        ≡ (Cache.add payload_cache_eq s.payload_cache (from_packet packet)).1
  unfolding handle_valid add_to_cache ◌>>=◌ Cache.contains emit
  valid_adds b pl packet s =
      let added = add_to_cache packet s in
      (handle_fresh-Keeps env b
          (dispatch-Keeps env (unchanged-IsStable env added.1.payload_cache)
            (λ ev. record { at = λ s h. ground (arith, h) }) b)
          pl packet (Cache.add payload_cache_eq s.payload_cache (from_packet packet)).0).at
        added.1 refl

  -- After a packet with a correct code, a packet with a correct code and the same key changes
  -- nothing and sends nothing.
  pub same_key_dropped :
      (border border' : Bool) (pl pl' : UplinkFrame F32) (packet packet' : MeshPacket)
      (s : State F32)
      → MeshPacket.from_slice pl.phy_payload ≡ ok packet
      → MeshPacket.validate_mic env.cmac (signing_key env) packet ≡ ok true
      → MeshPacket.from_slice pl'.phy_payload ≡ ok packet'
      → MeshPacket.validate_mic env.cmac (signing_key env) packet' ≡ ok true
      → from_packet packet' ≡ from_packet packet
      → let s' = (handle_mesh env border pl s).1 in handle_mesh env border' pl' s' ≡ (ok tt, s')
  same_key_dropped border border' pl pl' packet packet' s parsed valid parsed' valid' same =
      let s' = (handle_mesh env border pl s).1 in
      let cache : s'.payload_cache
          ≡ (Cache.add payload_cache_eq s.payload_cache (from_packet packet)).1 =
        ap (λ r. r.1.payload_cache) (valid_packet env border pl packet s parsed valid)
        ∙ valid_adds border pl packet s in
      valid_packet env border' pl' packet' s' parsed' valid'
      ∙ seen_packet border' pl' packet' s' (
          ap (λ c. Cache.contains payload_cache_eq c.deque (from_packet packet')) cache
          ∙ ap
              (Cache.contains payload_cache_eq
                (Cache.add payload_cache_eq s.payload_cache (from_packet packet)).1.deque)
              same
          ∙ added_key s.payload_cache (from_packet packet))

  -- The keys that are added to the cache, if any.
  record Adds (s t : State F32) (most : ℕ) : Type 0 where
    keys : List PayloadCache
    few : length keys ≤ most
    cache : t.payload_cache ≡ Cache.add_all payload_cache_eq s.payload_cache keys

  nothing_added : (s t : State F32) → t.payload_cache ≡ s.payload_cache → Adds s t 1
  nothing_added s t e = record { keys = []; few = omega arith; cache = e }

  handle_valid-Adds :
      (b : Bool) (pl : UplinkFrame F32) (packet : MeshPacket) (v : Result Bool) (s : State F32)
      → Adds s ((lift v >>= handle_valid env b pl packet) s).1 1
  unfolding handle_valid pure lift ◌>>=◌
  handle_valid-Adds b pl packet (ok true) s = record {
    keys = from_packet packet ∷ [];
    few = omega arith;
    cache = valid_adds b pl packet s;
  }
  handle_valid-Adds b pl packet (ok false) s = nothing_added s s refl
  handle_valid-Adds b pl packet (err e) s = nothing_added s s refl
  handle_valid-Adds b pl packet panicked s = nothing_added s s refl
  handle_valid-Adds b pl packet diverged s = nothing_added s s refl

  -- A frame adds at most one key.
  handle_mesh-Adds :
      (b : Bool) (pl : UplinkFrame F32) (s : State F32) → Adds s (handle_mesh env b pl s).1 1
  unfolding handle_mesh lift ◌>>=◌
  handle_mesh-Adds b pl s = go (MeshPacket.from_slice pl.phy_payload)
    where
      next : MeshPacket → M (State F32) (Unit {0})
      next p =
          lift (MeshPacket.validate_mic env.cmac (signing_key env) p) >>= handle_valid env b pl p

      go : (r : Result MeshPacket) → Adds s ((lift r >>= next) s).1 1
      go (ok p) = handle_valid-Adds b pl p (MeshPacket.validate_mic env.cmac (signing_key env) p) s
      go (err e) = nothing_added s s refl
      go panicked = nothing_added s s refl
      go diverged = nothing_added s s refl

  -- Frames that arrive one after the other, at a Border Gateway or a relay.
  abbrev pub arrivals : List (Bool × UplinkFrame F32) → State F32 → State F32
  arrivals [] s = s
  arrivals ((border, pl) ∷ frames) s = arrivals frames (handle_mesh env border pl s).1

  arrivals-Adds :
      (frames : List (Bool × UplinkFrame F32)) (s : State F32)
      → Adds s (arrivals frames s) (length frames)
  arrivals-Adds [] s = record { keys = []; few = omega arith; cache = refl }
  arrivals-Adds ((border, pl) ∷ frames) s =
      let s' = (handle_mesh env border pl s).1 in
      let now = handle_mesh-Adds border pl s in
      let rest = arrivals-Adds frames s' in
      record {
        keys = now.keys ++ rest.keys;
        few = omega (arith, length-append now.keys rest.keys, now.few, rest.few);
        cache =
            rest.cache
            ∙ ap (λ c. Cache.add_all payload_cache_eq c rest.keys) now.cache
            ∙ add_all-append s.payload_cache now.keys rest.keys;
      }

  -- A fresh packet with a correct code is dropped when it arrives again, in whichever frame, as long as fewer
  -- frames than the cache has places have come in between, whatever these were and whatever
  -- came of them: its handling changes nothing and sends nothing.
  pub handle_mesh_replay :
      (border border' : Bool) (pl pl' : UplinkFrame F32) (packet : MeshPacket)
      (between : List (Bool × UplinkFrame F32)) (s : State F32)
      → 0 < s.payload_cache.size
      → length s.payload_cache.deque ≤ s.payload_cache.size
      → length between < s.payload_cache.size
      → pl'.phy_payload ≡ pl.phy_payload
      → MeshPacket.from_slice pl.phy_payload ≡ ok packet
      → MeshPacket.validate_mic env.cmac (signing_key env) packet ≡ ok true
      → Cache.contains payload_cache_eq s.payload_cache.deque (from_packet packet) ≡ false
      → let s' = arrivals between (handle_mesh env border pl s).1 in
        handle_mesh env border' pl' s' ≡ (ok tt, s')
  handle_mesh_replay border border' pl pl' packet between s room fits few same parsed valid fresh =
      let key = from_packet packet in
      let t = (handle_mesh env border pl s).1 in
      let s' = arrivals between t in
      let adds = arrivals-Adds between t in
      let first : t.payload_cache ≡ (Cache.add payload_cache_eq s.payload_cache key).1 =
        ap (λ r. r.1.payload_cache) (valid_packet env border pl packet s parsed valid)
        ∙ valid_adds border pl packet s in
      let holds : Cache.Holds s.payload_cache s.payload_cache.deque =
        Cache.full-Holds s.payload_cache room fits in
      let refused =
        Cache.add-replay payload_cache_eq s.payload_cache s.payload_cache.deque adds.keys key
          (payload_cache_eq_refl key) holds (accepts s.payload_cache key fresh)
          (omega (arith, adds.few, few)) in
      valid_packet env border' pl' packet s' (ap MeshPacket.from_slice same ∙ parsed) valid
      ∙ seen_packet border' pl' packet s' (
          ap (λ c. Cache.contains payload_cache_eq c.deque key) adds.cache
          ∙ ap
              (λ c.
                Cache.contains payload_cache_eq (Cache.add_all payload_cache_eq c adds.keys).deque
                  key)
              first
          ∙ refused_seen
              (Cache.add_all payload_cache_eq (Cache.add payload_cache_eq s.payload_cache key).1
                adds.keys)
              key refused)
