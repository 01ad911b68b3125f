-- ===== src/Node/Roles.antt =====
-- What a Border Gateway and a relay never send.
use chirpstack_gateway_mesh.Common.{
  ℕ, ◌≡◌, refl, ◌∙◌, Bool, true, false, List, [], ◌∷◌, ◌++◌, append-nil, arith,
}
use chirpstack_gateway_mesh.Packets.MeshPacket.{MeshPacket}
use chirpstack_gateway_mesh.Gw
use chirpstack_gateway_mesh.Gw.{DownlinkFrame}
use chirpstack_gateway_mesh.Runtime.{
  State, Env, Output, mesh_frame, downlink_frame, proxy_event, gateway_configuration, ◌>>=◌, pure,
}
use chirpstack_gateway_mesh.Runtime.Keeps.{Keeps}
use chirpstack_gateway_mesh.Backend.{emit, random}
use chirpstack_gateway_mesh.Commands.{set_last_timestamp}
use chirpstack_gateway_mesh.Events.{now}
use chirpstack_gateway_mesh.Mesh.Counters.{get_mesh_frequency, store_uplink_context, get_uplink_id}
use chirpstack_gateway_mesh.Mesh.Handle.{add_to_cache}
use chirpstack_gateway_mesh.Handlers.{handle_event_msg, handle_mesh_event_msg}
use chirpstack_gateway_mesh.Node.Stable.{IsStable}
use chirpstack_gateway_mesh.Node.Entries.{
  border_event_msg-Keeps, border_dispatch-Keeps, relay_event_msg-Keeps, relay_dispatch-Keeps,
  handle_mesh_event_msg-Keeps,
}

module _ {F32 : Type 0} where
  -- What was sent to the Concentratord processes.
  abbrev pub on_air : List (Output F32) → List (Output F32)
  on_air [] = []
  on_air (mesh_frame pl ∷ sent) = mesh_frame pl ∷ on_air sent
  on_air (downlink_frame pl ∷ sent) = downlink_frame pl ∷ on_air sent
  on_air (proxy_event pl ∷ sent) = on_air sent
  on_air (gateway_configuration pl ∷ sent) = gateway_configuration pl ∷ on_air sent

  -- The events that were sent to the proxy API.
  abbrev pub proxied : List (Output F32) → List (Gw.Event F32)
  proxied [] = []
  proxied (mesh_frame pl ∷ sent) = proxied sent
  proxied (downlink_frame pl ∷ sent) = proxied sent
  proxied (proxy_event pl ∷ sent) = pl ∷ proxied sent
  proxied (gateway_configuration pl ∷ sent) = proxied sent

  on_air-append : (xs ys : List (Output F32)) → on_air (xs ++ ys) ≡ on_air xs ++ on_air ys
  on_air-append [] ys = refl
  on_air-append (mesh_frame pl ∷ xs) ys = rw (on_air-append xs ys) refl
  on_air-append (downlink_frame pl ∷ xs) ys = rw (on_air-append xs ys) refl
  on_air-append (proxy_event pl ∷ xs) ys = on_air-append xs ys
  on_air-append (gateway_configuration pl ∷ xs) ys = rw (on_air-append xs ys) refl

  proxied-append : (xs ys : List (Output F32)) → proxied (xs ++ ys) ≡ proxied xs ++ proxied ys
  proxied-append [] ys = refl
  proxied-append (mesh_frame pl ∷ xs) ys = proxied-append xs ys
  proxied-append (downlink_frame pl ∷ xs) ys = proxied-append xs ys
  proxied-append (proxy_event pl ∷ xs) ys = rw (proxied-append xs ys) refl
  proxied-append (gateway_configuration pl ∷ xs) ys = proxied-append xs ys

  module _ (env : Env F32) (sent : List (Output F32)) where
    quiet_event :
        (pl : Gw.Event F32) → Keeps (λ s. on_air s.sent ≡ on_air sent) (emit (proxy_event pl))
    unfolding emit pure
    quiet_event pl = record { at = λ s h. on_air-append s.sent _ ∙ append-nil (on_air s.sent) ∙ h }

    quiet_cache :
        (packet : MeshPacket) → Keeps (λ s. on_air s.sent ≡ on_air sent) (add_to_cache packet)
    unfolding add_to_cache pure
    quiet_cache packet = record { at = λ s h. h }

    silent_emit :
        (o : Output F32)
        → proxied (o ∷ []) ≡ []
        → Keeps (λ s. proxied s.sent ≡ proxied sent) (emit o)
    unfolding emit pure
    silent_emit o e = record {
      at = λ s h. proxied-append s.sent _ ∙ rw e (append-nil (proxied s.sent)) ∙ h;
    }

    silent_cache :
        (packet : MeshPacket) → Keeps (λ s. proxied s.sent ≡ proxied sent) (add_to_cache packet)
    unfolding add_to_cache pure
    silent_cache packet = record { at = λ s h. h }

    silent-IsStable : IsStable env (λ s. proxied s.sent ≡ proxied sent)
    unfolding random now get_mesh_frequency store_uplink_context set_last_timestamp ◌>>=◌
        get_uplink_id
    silent-IsStable = record {
      random = record { at = λ s h. h };
      now = record { at = λ s h. h };
      frequency = record { at = λ s h. ground (arith, h) };
      store = λ ctx. record { at = λ s h. h };
      timestamp = λ ts. record { at = λ s h. h };
      mesh = λ pl m. silent_emit (mesh_frame pl) refl;
      downlink = λ pl. silent_emit (downlink_frame pl) refl;
      configuration = λ pl. silent_emit (gateway_configuration pl) refl;
    }

module _ {F32 : Type 0} (env : Env F32) where
  -- No event that arrives at a Border Gateway, from the LoRaWAN or from the mesh Concentratord, makes it send a
  -- frame or a configuration: what is sent are events for the proxy API alone.
  pub border_gateway_quiet :
      (matches : List ℕ → Bool) (ignore_direct_uplinks : Bool) (event mesh_event : Gw.Event F32)
      (s : State F32)
      → (on_air (handle_event_msg env matches true ignore_direct_uplinks event s).1.sent
          ≡ on_air s.sent)
        × (on_air (handle_mesh_event_msg env true mesh_event s).1.sent ≡ on_air s.sent)
  border_gateway_quiet matches ignore_direct_uplinks event mesh_event s = (
    (border_event_msg-Keeps env (quiet_event env s.sent) matches ignore_direct_uplinks event).at s
        refl,
    (handle_mesh_event_msg-Keeps env true (border_dispatch-Keeps env (quiet_event env s.sent))
          (quiet_cache env s.sent) mesh_event).at
        s refl,
  )

  -- No event that arrives at a relay, from the LoRaWAN or from the mesh Concentratord, makes it send an event to
  -- the proxy API.
  pub relay_silent :
      (matches : List ℕ → Bool) (ignore_direct_uplinks : Bool) (event mesh_event : Gw.Event F32)
      (s : State F32)
      → (proxied (handle_event_msg env matches false ignore_direct_uplinks event s).1.sent
          ≡ proxied s.sent)
        × (proxied (handle_mesh_event_msg env false mesh_event s).1.sent ≡ proxied s.sent)
  relay_silent matches ignore_direct_uplinks event mesh_event s = (
    (relay_event_msg-Keeps env (silent-IsStable env s.sent) matches ignore_direct_uplinks event).at
        s refl,
    (handle_mesh_event_msg-Keeps env false (relay_dispatch-Keeps env (silent-IsStable env s.sent))
          (silent_cache env s.sent) mesh_event).at
        s refl,
  )
