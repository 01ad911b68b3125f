-- ===== src/Node/Settled/Entries.antt =====
-- The entry points return, and the loops around them go on.
use chirpstack_gateway_mesh.Common.{
  ℕ, ◌≡◌, refl, ap, ◌∙◌, Bool, true, false, List, [], ◌∷◌, Option, none, some,
}
use chirpstack_gateway_mesh.Common.Result.{Result, ok, err, panicked, diverged, IsSettled}
use chirpstack_gateway_mesh.Packets.MeshPacket
use chirpstack_gateway_mesh.Packets.MeshPacket.{MeshPacket, Payload, IsMac, IsPlain}
use chirpstack_gateway_mesh.Gw
use chirpstack_gateway_mesh.Gw.{
  UplinkFrame, UplinkRxInfo, UplinkTxInfo, DownlinkFrame, DownlinkFrameItem, DownlinkTxAck,
}
use chirpstack_gateway_mesh.Helpers.Settled.{format_downlink-IsSettled, format_uplink-IsSettled}
use chirpstack_gateway_mesh.Runtime.{State, Env, M, ◌>>=◌, pure}
use chirpstack_gateway_mesh.Runtime.Settles.{
  Settles, Settles-pure, Settles-lift, Settles-attempt, Settles-split, Settles-bind,
  Settles-bind-lift,
}
use chirpstack_gateway_mesh.Events.{report_events, report_heartbeat}
use chirpstack_gateway_mesh.Mesh.Send.{signing_key, encryption_key}
use chirpstack_gateway_mesh.Mesh.Proxy.{proxy_uplink_lora_packet}
use chirpstack_gateway_mesh.Mesh.Handle.{
  handle_uplink, dispatch, handle_fresh, handle_valid, handle_mesh,
}
use chirpstack_gateway_mesh.Handlers.{
  unless, handle_accepted, handle_received, handle_frame, handle_event_msg, handle_mesh_frame,
  handle_mesh_event_msg, log_if, event_loop, mesh_event_loop,
}
use chirpstack_gateway_mesh.Proxy.{handle_command, command_loop, reply_of}
use chirpstack_gateway_mesh.Runtime.{attempt, caught}
use chirpstack_gateway_mesh.Runtime.Returns
use chirpstack_gateway_mesh.Node.Settled.Senders.{
  IsResponsive, cache-Settles, gateway_id-Settles, send_event-Settles, configuration-Settles,
  send_events-Settles, report_events-Settles,
}
use chirpstack_gateway_mesh.Node.Settled.Relay.{relay_uplink-Settles, relay_mesh_packet-Settles}
use chirpstack_gateway_mesh.Node.Settled.Border.{
  proxy_packet-Settles, handle_downlink-Settles, send_mesh_command-Settles,
}

log_if-IsSettled : (b : Bool) → IsSettled (log_if b)
log_if-IsSettled true = tt
log_if-IsSettled false = tt

unless-Settles : {S : Type 0} (b : Bool) (m : M S (Unit {0})) → Settles m → Settles (unless b m)
unless-Settles true m k = Settles-pure _
unless-Settles false m k = k

module _ {F32 : Type 0} (env : Env F32) (resp : IsResponsive env) where
  dispatch-Settles :
      (b : Bool) (pl : UplinkFrame F32) (packet : MeshPacket)
      → IsPlain packet.payload
      → Settles (dispatch env b pl packet)
  unfolding dispatch
  dispatch-Settles true pl packet h =
      proxy_packet-Settles env resp pl packet packet.mhdr.payload_type h
  dispatch-Settles false pl packet h = relay_mesh_packet-Settles env resp pl packet h

  handle_fresh-Settles :
      (b : Bool) (pl : UplinkFrame F32) (packet : MeshPacket) (added : Bool)
      → Settles (handle_fresh env b pl packet added)
  unfolding handle_fresh
  handle_fresh-Settles b pl packet false = Settles-pure _
  handle_fresh-Settles b pl packet true =
      Settles-bind-lift _ _ (MeshPacket.decrypt-IsSettled env.aes (encryption_key env) packet)
        λ p e.
          dispatch-Settles b pl p (MeshPacket.decrypt-IsPlain env.aes (encryption_key env) packet e)

  handle_valid-Settles :
      (b : Bool) (pl : UplinkFrame F32) (packet : MeshPacket) (valid : Bool)
      → Settles (handle_valid env b pl packet valid)
  unfolding handle_valid
  handle_valid-Settles b pl packet false = Settles-pure _
  handle_valid-Settles b pl packet true =
      Settles-bind _ _ (cache-Settles packet) (handle_fresh-Settles b pl packet)

  handle_mesh-Settles : (b : Bool) (pl : UplinkFrame F32) → Settles (handle_mesh env b pl)
  unfolding handle_mesh
  handle_mesh-Settles b pl =
      Settles-bind-lift _ _ (MeshPacket.from_slice-IsSettled pl.phy_payload) λ packet parsed.
        Settles-bind-lift _ _
          (MeshPacket.validate_mic-IsSettled env.cmac resp.mac (signing_key env) packet)
          λ valid e. handle_valid-Settles b pl packet valid

  handle_mesh_event_msg-Settles :
      (b : Bool) (event : Gw.Event F32) → Settles (handle_mesh_event_msg env b event)
  unfolding handle_mesh_event_msg handle_mesh_frame
  handle_mesh_event_msg-Settles b (Gw.Event.uplink_frame v) = Settles-split _ _ _ (Settles-pure _) (
      Settles-split _ _ _
        (Settles-bind _ _ (Settles-lift _ (format_uplink-IsSettled v)) λ u. handle_mesh-Settles b v)
        (Settles-pure _))
  handle_mesh_event_msg-Settles b (Gw.Event.gateway_stats v) = Settles-pure _
  handle_mesh_event_msg-Settles b (Gw.Event.mesh v) = Settles-pure _
  handle_mesh_event_msg-Settles b Gw.Event.other_event = Settles-pure _

  handle_uplink-Settles : (b : Bool) (pl : UplinkFrame F32) → Settles (handle_uplink env b pl)
  unfolding handle_uplink proxy_uplink_lora_packet
  handle_uplink-Settles true pl =
      Settles-bind _ _ (Settles-lift _ (format_uplink-IsSettled pl))
        λ u. send_event-Settles env resp _
  handle_uplink-Settles false pl = relay_uplink-Settles env resp pl

  handle_frame-Settles :
      (matches : List ℕ → Bool) (b i : Bool) (v : UplinkFrame F32) (r : Option (UplinkRxInfo F32))
      → Settles (handle_frame env matches b i v r)
  unfolding handle_frame handle_received handle_accepted
  handle_frame-Settles matches b i v none = Settles-pure _
  handle_frame-Settles matches b i v (some r) = unless-Settles _ _ (
      Settles-bind _ _ (Settles-lift _ (log_if-IsSettled _)) λ u.
        Settles-bind _ _ (Settles-lift _ (format_uplink-IsSettled v))
          λ w. handle_uplink-Settles b v)

  handle_event_msg-Settles :
      (matches : List ℕ → Bool) (b i : Bool) (event : Gw.Event F32)
      → Settles (handle_event_msg env matches b i event)
  unfolding handle_event_msg
  handle_event_msg-Settles matches b i (Gw.Event.uplink_frame v) =
      handle_frame-Settles matches b i v v.rx_info
  handle_event_msg-Settles matches true i (Gw.Event.gateway_stats v) = send_event-Settles env resp _
  handle_event_msg-Settles matches false i (Gw.Event.gateway_stats v) = Settles-pure _
  handle_event_msg-Settles matches b i (Gw.Event.mesh v) = Settles-pure _
  handle_event_msg-Settles matches b i Gw.Event.other_event = Settles-pure _

  handle_command-Settles : (cmd : Gw.Command) → Settles (handle_command env cmd)
  unfolding handle_command
  handle_command-Settles (Gw.Command.set_gateway_configuration v) =
      Settles-bind _ _ (configuration-Settles env resp v) λ u. Settles-pure _
  handle_command-Settles (Gw.Command.send_downlink_frame v) =
      Settles-bind _ _ (Settles-lift _ (format_downlink-IsSettled v))
        λ u. Settles-bind _ _ (handle_downlink-Settles env resp v) λ ack. Settles-pure _
  handle_command-Settles Gw.Command.get_gateway_id =
      Settles-bind _ _ (Settles-attempt _ (gateway_id-Settles env)) λ id. Settles-pure _
  handle_command-Settles (Gw.Command.mesh v) =
      Settles-bind _ _ (send_mesh_command-Settles env resp v) λ u. Settles-pure _
  handle_command-Settles Gw.Command.other_command = Settles-lift _ tt

  -- No event and no command makes a handler panic or hang, in any state and with any configuration,
  -- as long as what the handlers call returns: whatever the bytes of a received frame are, the handler
  -- returns, if only with an error.
  pub handlers_return :
      (matches : List ℕ → Bool) (border_gateway ignore_direct_uplinks : Bool) (event : Gw.Event F32)
      (cmd : Gw.Command) (typs : List ℕ) (s : State F32)
      → IsSettled (handle_event_msg env matches border_gateway ignore_direct_uplinks event s).0
        × IsSettled (handle_mesh_event_msg env border_gateway event s).0
        × IsSettled (handle_command env cmd s).0
        × IsSettled (report_heartbeat env s).0
        × IsSettled (report_events env typs s).0
  unfolding report_heartbeat
  handlers_return matches b i event cmd typs s = (
    (handle_event_msg-Settles matches b i event).at s,
    (handle_mesh_event_msg-Settles b event).at s,
    (handle_command-Settles cmd).at s,
    (send_events-Settles env resp _).at s,
    (report_events-Settles env resp typs).at s,
  )

  -- What an attempt keeps of a result.
  abbrev kept_of : {A : Type 0} → Result A → Option A
  kept_of (ok a) = some a
  kept_of (err e) = none
  kept_of panicked = none
  kept_of diverged = none

  attempted :
      {A : Type 0} (r : Result A × State F32) → IsSettled r.0 → caught r ≡ (ok (kept_of r.0), r.1)
  attempted (ok a, s) h = refl
  attempted (err e, s) h = refl
  attempted (panicked, s) h = absurd h
  attempted (diverged, s) h = absurd h

  -- What an attempt yields, the rest goes on with.
  after_attempt :
      {A B : Type 0} (m : M (State F32) A) (f : Option A → M (State F32) B) (s : State F32)
      → Settles m
      → (attempt m >>= f) s ≡ f (kept_of (m s).0) (m s).1
  unfolding attempt
  after_attempt m f s k = Returns.>>=-step (attempt m) f s (attempted (m s) (k.at s))

  -- The state after all inputs have been handled in turn, each in the state that the last one left.
  abbrev pub all_handled : {I A : Type 0} → (I → M (State F32) A) → List I → State F32 → State F32
  all_handled handle [] s = s
  all_handled handle (input ∷ inputs) s = all_handled handle inputs (handle input s).1

  -- The reply to a command: what its handler returns, or nothing where it fails.
  abbrev pub reply_for : Result (List ℕ) → List ℕ
  reply_for (ok reply) = reply
  reply_for (err e) = []
  reply_for panicked = []
  reply_for diverged = []

  abbrev pub replies_for : List Gw.Command → State F32 → List (List ℕ)
  replies_for [] s = []
  replies_for (cmd ∷ cmds) s =
      reply_for (handle_command env cmd s).0 ∷ replies_for cmds (handle_command env cmd s).1

  reply_of-kept : (r : Result (List ℕ)) → reply_of (kept_of r) ≡ reply_for r
  reply_of-kept (ok reply) = refl
  reply_of-kept (err e) = refl
  reply_of-kept panicked = refl
  reply_of-kept diverged = refl

  command_loop_answers :
      (cmds : List Gw.Command) (s : State F32)
      → command_loop env cmds s ≡ (ok (replies_for cmds s), all_handled (handle_command env) cmds s)
  unfolding command_loop pure
  command_loop_answers [] s = refl
  command_loop_answers (cmd ∷ cmds) s =
      let s' = (handle_command env cmd s).1 in
      after_attempt (handle_command env cmd) _ s (handle_command-Settles cmd)
      ∙ Returns.>>=-step (command_loop env cmds) _ s' (command_loop_answers cmds s')
      ∙ ap (λ reply. (ok (reply ∷ replies_for cmds s'), all_handled (handle_command env) cmds s'))
          (reply_of-kept (handle_command env cmd s).0)

  event_loop_goes_on :
      (matches : List ℕ → Bool) (border_gateway ignore_direct_uplinks : Bool)
      (events : List (Gw.Event F32)) (s : State F32)
      → event_loop env matches border_gateway ignore_direct_uplinks events s ≡ (
        ok tt,
        all_handled (handle_event_msg env matches border_gateway ignore_direct_uplinks) events s,
      )
  unfolding event_loop pure
  event_loop_goes_on matches b i [] s = refl
  event_loop_goes_on matches b i (event ∷ events) s =
      after_attempt (handle_event_msg env matches b i event) _ s
        (handle_event_msg-Settles matches b i event)
      ∙ event_loop_goes_on matches b i events (handle_event_msg env matches b i event s).1

  mesh_event_loop_goes_on :
      (border_gateway : Bool) (events : List (Gw.Event F32)) (s : State F32)
      → mesh_event_loop env border_gateway events s
        ≡ (ok tt, all_handled (handle_mesh_event_msg env border_gateway) events s)
  unfolding mesh_event_loop pure
  mesh_event_loop_goes_on b [] s = refl
  mesh_event_loop_goes_on b (event ∷ events) s =
      after_attempt (handle_mesh_event_msg env b event) _ s (handle_mesh_event_msg-Settles b event)
      ∙ mesh_event_loop_goes_on b events (handle_mesh_event_msg env b event s).1

  -- No event and no command stops a loop, as long as what the handlers call returns, if only with an
  -- error: the two loops over events and the loop over the commands of the proxy API end in the state in
  -- which all of the inputs have been handled in turn, and each command gets one reply, which is what its
  -- handler returns, and empty where it fails.
  pub loops_go_on :
      (matches : List ℕ → Bool) (border_gateway ignore_direct_uplinks : Bool)
      (events : List (Gw.Event F32)) (cmds : List Gw.Command) (s : State F32)
      → (event_loop env matches border_gateway ignore_direct_uplinks events s ≡ (
        ok tt,
        all_handled (handle_event_msg env matches border_gateway ignore_direct_uplinks) events s,
      ))
        × (mesh_event_loop env border_gateway events s
            ≡ (ok tt, all_handled (handle_mesh_event_msg env border_gateway) events s))
        × (command_loop env cmds s
            ≡ (ok (replies_for cmds s), all_handled (handle_command env) cmds s))
  loops_go_on matches b i events cmds s = (
    event_loop_goes_on matches b i events s,
    mesh_event_loop_goes_on b events s,
    command_loop_answers cmds s,
  )
