-- ===== src/Handlers.antt =====
-- `handle_event_msg` and `handle_mesh_event_msg` of `src/backend.rs`: which of the Concentratord's
-- events reach the mesh. `matches` stands for `lrwn_filters::matches` with the configured filters.
use chirpstack_gateway_mesh.Common.{
  ℕ, ◌≡◌, refl, ap, bit_and, Bool, true, false, ◌||◌, ◌==◌, not, List, [], ◌∷◌, Option, none, some,
}
use chirpstack_gateway_mesh.Common.Result.{Result, ok}
use chirpstack_gateway_mesh.Helpers.Ack.{format_uplink}
use chirpstack_gateway_mesh.Gw
use chirpstack_gateway_mesh.Gw.{UplinkFrame, UplinkRxInfo, CrcStatus}
use chirpstack_gateway_mesh.Runtime.{State, Env, M, ◌>>=◌, ◌>>◌, pure, lift, attempt}
use chirpstack_gateway_mesh.Backend.{send_event}
use chirpstack_gateway_mesh.Mesh.Handle.{handle_uplink, handle_mesh}

-- `rx_info.crc_status() != CrcOk`.
abbrev pub crc_failed : CrcStatus → Bool
crc_failed CrcStatus.crc_ok = false
crc_failed CrcStatus.other_crc = true

-- `v.phy_payload.first().cloned().unwrap_or_default()`.
abbrev pub first_or_zero : List ℕ → ℕ
first_or_zero [] = 0
first_or_zero (x ∷ b) = x

-- The top three bits of a frame of the proprietary type are set.
unfoldable pub is_proprietary : List ℕ → Bool
is_proprietary phy_payload = bit_and (first_or_zero phy_payload) 0xe0 == 0xe0

-- `if !matches { debug!(..) }`: both ways go on.
abbrev pub log_if : Bool → Result (Unit {0})
log_if true = ok tt
log_if false = ok tt

only_logged : (c d : Bool) → log_if c ≡ log_if d
only_logged true true = refl
only_logged true false = refl
only_logged false true = refl
only_logged false false = refl

-- `if discarded { return Ok(()) }`.
abbrev pub unless : {S : Type 0} → Bool → M S (Unit {0}) → M S (Unit {0})
unless true m = pure tt
unless false m = m

unless_alike :
    {S : Type 0} (b : Bool) (m n : M S (Unit {0})) (s : S) → m s ≡ n s → unless b m s ≡ unless b n s
unless_alike true m n s e = refl
unless_alike false m n s e = e

module _ {F32 : Type 0} (env : Env F32) where
  -- A frame that the filters refuse is logged, and handled like the others.
  unfoldable pub handle_accepted :
      (List ℕ → Bool) → Bool → UplinkFrame F32 → M (State F32) (Unit {0})
  unfolding format_uplink handle_uplink
  handle_accepted matches border_gateway v = do
    lift (log_if (not (matches v.phy_payload)))
    lift (format_uplink v)
    handle_uplink env border_gateway v

  -- A wrong checksum, a proprietary frame and, if so configured, every direct uplink are discarded.
  unfoldable pub handle_received :
      (List ℕ → Bool) → Bool → Bool → UplinkFrame F32 → UplinkRxInfo F32 → M (State F32) (Unit {0})
  unfolding is_proprietary handle_accepted
  handle_received matches border_gateway ignore_direct_uplinks v rx_info =
      unless
        (crc_failed rx_info.crc_status || is_proprietary v.phy_payload || ignore_direct_uplinks)
        (handle_accepted matches border_gateway v)

  unfoldable pub handle_frame :
      (List ℕ → Bool)
      → Bool
      → Bool
      → UplinkFrame F32
      → Option (UplinkRxInfo F32)
      → M (State F32) (Unit {0})
  unfolding handle_received
  handle_frame matches border_gateway ignore_direct_uplinks v none = pure tt
  handle_frame matches border_gateway ignore_direct_uplinks v (some rx_info) =
      handle_received matches border_gateway ignore_direct_uplinks v rx_info

  unfoldable pub handle_event_msg :
      (List ℕ → Bool) → Bool → Bool → Gw.Event F32 → M (State F32) (Unit {0})
  unfolding handle_frame send_event
  handle_event_msg matches border_gateway ignore_direct_uplinks (Gw.Event.uplink_frame v) =
      handle_frame matches border_gateway ignore_direct_uplinks v v.rx_info
  handle_event_msg matches true ignore_direct_uplinks (Gw.Event.gateway_stats b) =
      send_event env (Gw.Event.gateway_stats b)
  handle_event_msg matches false ignore_direct_uplinks (Gw.Event.gateway_stats b) = pure tt
  handle_event_msg matches border_gateway ignore_direct_uplinks (Gw.Event.mesh v) = pure tt
  handle_event_msg matches border_gateway ignore_direct_uplinks Gw.Event.other_event = pure tt

  unfoldable pub handle_mesh_frame : Bool → UplinkFrame F32 → M (State F32) (Unit {0})
  unfolding is_proprietary format_uplink handle_mesh
  handle_mesh_frame border_gateway v = elim (is_proprietary v.phy_payload) [
    | true ↦ lift (format_uplink v) >> handle_mesh env border_gateway v
    | false ↦ pure tt
  ]

  -- `if let Some(rx_info) = &v.rx_info`: without receive information there is no checksum to test.
  unfoldable pub mesh_crc_failed : Option (UplinkRxInfo F32) → Bool
  mesh_crc_failed none = false
  mesh_crc_failed (some rx_info) = crc_failed rx_info.crc_status

  unfoldable pub handle_mesh_event_msg : Bool → Gw.Event F32 → M (State F32) (Unit {0})
  unfolding mesh_crc_failed handle_mesh_frame
  handle_mesh_event_msg border_gateway (Gw.Event.uplink_frame v) =
      elim (mesh_crc_failed v.rx_info) [
        | true ↦ pure tt
        | false ↦ handle_mesh_frame border_gateway v
      ]
  handle_mesh_event_msg border_gateway _ = pure tt

  -- The events that arrive, one after the other: an error is logged, and the loop goes on.
  unfoldable pub event_loop :
      (List ℕ → Bool) → Bool → Bool → List (Gw.Event F32) → M (State F32) (Unit {0})
  unfolding handle_event_msg
  event_loop matches border_gateway ignore_direct_uplinks [] = pure tt
  event_loop matches border_gateway ignore_direct_uplinks (event ∷ events) = do
    done ← attempt (handle_event_msg matches border_gateway ignore_direct_uplinks event)
    event_loop matches border_gateway ignore_direct_uplinks events

  unfoldable pub mesh_event_loop : Bool → List (Gw.Event F32) → M (State F32) (Unit {0})
  unfolding handle_mesh_event_msg
  mesh_event_loop border_gateway [] = pure tt
  mesh_event_loop border_gateway (event ∷ events) = do
    done ← attempt (handle_mesh_event_msg border_gateway event)
    mesh_event_loop border_gateway events

  module _ (matches any : List ℕ → Bool) (border_gateway ignore_direct_uplinks : Bool) where
    accepted_alike :
        (v : UplinkFrame F32) (s : State F32)
        → handle_accepted matches border_gateway v s ≡ handle_accepted any border_gateway v s
    unfolding handle_accepted
    accepted_alike v s =
        ap (λ r. (lift r >> (lift (format_uplink v) >> handle_uplink env border_gateway v)) s)
          (only_logged (not (matches v.phy_payload)) (not (any v.phy_payload)))

    received_alike :
        (v : UplinkFrame F32) (rx_info : UplinkRxInfo F32) (s : State F32)
        → handle_received matches border_gateway ignore_direct_uplinks v rx_info s
          ≡ handle_received any border_gateway ignore_direct_uplinks v rx_info s
    unfolding handle_received
    received_alike v rx_info s =
        unless_alike
          (crc_failed rx_info.crc_status || is_proprietary v.phy_payload || ignore_direct_uplinks)
          (handle_accepted matches border_gateway v) (handle_accepted any border_gateway v) s
          (accepted_alike v s)

    frame_alike :
        (v : UplinkFrame F32) (rx_info : Option (UplinkRxInfo F32)) (s : State F32)
        → handle_frame matches border_gateway ignore_direct_uplinks v rx_info s
          ≡ handle_frame any border_gateway ignore_direct_uplinks v rx_info s
    unfolding handle_frame
    frame_alike v none s = refl
    frame_alike v (some rx_info) s = received_alike v rx_info s

  -- The DevAddr and JoinEUI filters have no effect on what is done with an event: two filters give
  -- the same result and the same state.
  pub filters_without_effect :
      (matches any : List ℕ → Bool) (border_gateway ignore_direct_uplinks : Bool)
      (event : Gw.Event F32) (s : State F32)
      → handle_event_msg matches border_gateway ignore_direct_uplinks event s
        ≡ handle_event_msg any border_gateway ignore_direct_uplinks event s
  unfolding handle_event_msg
  filters_without_effect matches any b i (Gw.Event.uplink_frame v) s =
      frame_alike matches any b i v v.rx_info s
  filters_without_effect matches any true i (Gw.Event.gateway_stats v) s = refl
  filters_without_effect matches any false i (Gw.Event.gateway_stats v) s = refl
  filters_without_effect matches any b i (Gw.Event.mesh v) s = refl
  filters_without_effect matches any b i Gw.Event.other_event s = refl
