-- ===== src/Node/Entries.antt =====
-- The entry points keep what the primitive steps and the payload cache keep: first what a relay and
-- a Border Gateway share, then each of them.
use chirpstack_gateway_mesh.Common.{ℕ, Bool, true, false, List, Option, none, some}
use chirpstack_gateway_mesh.Packets.MeshPacket.{MeshPacket}
use chirpstack_gateway_mesh.Gw
use chirpstack_gateway_mesh.Gw.{
  UplinkFrame, UplinkRxInfo, UplinkTxInfo, DownlinkFrame, DownlinkFrameItem,
}
use chirpstack_gateway_mesh.Runtime.{State, Env, proxy_event, M}
use chirpstack_gateway_mesh.Runtime.Keeps.{
  Keeps-split, Keeps, Keeps-pure, Keeps-lift, Keeps-bind, Keeps-bind-lift, keeps_rules,
}
use chirpstack_gateway_mesh.Backend.{emit}
use chirpstack_gateway_mesh.Mesh.Proxy.{proxy_uplink_lora_packet}
use chirpstack_gateway_mesh.Mesh.Handle.{
  add_to_cache, handle_uplink, dispatch, handle_fresh, handle_valid, handle_mesh,
}
use chirpstack_gateway_mesh.Node.Stable.{IsStable, relay_mesh_packet-Keeps, relay_uplink-Keeps}
use chirpstack_gateway_mesh.Handlers.{
  unless, handle_accepted, handle_received, handle_frame, handle_event_msg, handle_mesh_frame,
  handle_mesh_event_msg,
}
use chirpstack_gateway_mesh.Node.Border.{proxy_packet-Keeps, send_event-Keeps}

unless-Keeps :
    {S : Type 0} {P : S → Type 0} (b : Bool) (m : M S (Unit {0})) → Keeps P m → Keeps P (unless b m)
unless-Keeps true m k = Keeps-pure _
unless-Keeps false m k = k

module _ {F32 : Type 0} (env : Env F32) {P : State F32 → Type 0} (b : Bool) where
  module _
      (dispatched : (pl : UplinkFrame F32) (packet : MeshPacket)
        → Keeps P (dispatch env b pl packet)) where
    pub handle_fresh-Keeps :
        (pl : UplinkFrame F32) (packet : MeshPacket) (added : Bool)
        → Keeps P (handle_fresh env b pl packet added)
    unfolding handle_fresh
    handle_fresh-Keeps pl packet false = Keeps-pure _
    handle_fresh-Keeps pl packet true = search (keeps_rules, dispatched)

    module _ (cached : (packet : MeshPacket) → Keeps P (add_to_cache packet)) where
      handle_valid-Keeps :
          (pl : UplinkFrame F32) (packet : MeshPacket) (valid : Bool)
          → Keeps P (handle_valid env b pl packet valid)
      unfolding handle_valid
      handle_valid-Keeps pl packet false = Keeps-pure _
      handle_valid-Keeps pl packet true =
          Keeps-bind _ _ (cached packet) (handle_fresh-Keeps pl packet)

      pub handle_mesh-Keeps : (pl : UplinkFrame F32) → Keeps P (handle_mesh env b pl)
      unfolding handle_mesh
      handle_mesh-Keeps pl =
          Keeps-bind-lift _ _
            λ packet parsed. Keeps-bind-lift _ _ λ valid e. handle_valid-Keeps pl packet valid

      pub handle_mesh_event_msg-Keeps :
          (event : Gw.Event F32) → Keeps P (handle_mesh_event_msg env b event)
      unfolding handle_mesh_event_msg handle_mesh_frame
      handle_mesh_event_msg-Keeps (Gw.Event.uplink_frame v) = Keeps-split _ _ _ (Keeps-pure _) (
          Keeps-split _ _ _ (Keeps-bind _ _ (Keeps-lift _) (λ u. handle_mesh-Keeps v))
            (Keeps-pure _))
      handle_mesh_event_msg-Keeps (Gw.Event.gateway_stats v) = Keeps-pure _
      handle_mesh_event_msg-Keeps (Gw.Event.mesh v) = Keeps-pure _
      handle_mesh_event_msg-Keeps Gw.Event.other_event = Keeps-pure _

  module _ (uplinked : (pl : UplinkFrame F32) → Keeps P (handle_uplink env b pl)) where
    handle_accepted-Keeps :
        (matches : List ℕ → Bool) (v : UplinkFrame F32) → Keeps P (handle_accepted env matches b v)
    unfolding handle_accepted
    handle_accepted-Keeps matches v = search (keeps_rules, uplinked)

    pub handle_frame-Keeps :
        (matches : List ℕ → Bool) (i : Bool) (v : UplinkFrame F32) (r : Option (UplinkRxInfo F32))
        → Keeps P (handle_frame env matches b i v r)
    unfolding handle_frame handle_received
    handle_frame-Keeps matches i v none = Keeps-pure _
    handle_frame-Keeps matches i v (some r) = unless-Keeps _ _ (handle_accepted-Keeps matches v)

module _ {F32 : Type 0} (env : Env F32) {P : State F32 → Type 0} (stable : IsStable env P) where
  pub relay_event_msg-Keeps :
      (matches : List ℕ → Bool) (i : Bool) (event : Gw.Event F32)
      → Keeps P (handle_event_msg env matches false i event)
  unfolding handle_event_msg handle_uplink
  relay_event_msg-Keeps matches i (Gw.Event.uplink_frame v) =
      handle_frame-Keeps env false (relay_uplink-Keeps env stable) matches i v v.rx_info
  relay_event_msg-Keeps matches i (Gw.Event.gateway_stats v) = Keeps-pure _
  relay_event_msg-Keeps matches i (Gw.Event.mesh v) = Keeps-pure _
  relay_event_msg-Keeps matches i Gw.Event.other_event = Keeps-pure _

  pub relay_dispatch-Keeps :
      (pl : UplinkFrame F32) (packet : MeshPacket) → Keeps P (dispatch env false pl packet)
  unfolding dispatch
  relay_dispatch-Keeps pl packet = relay_mesh_packet-Keeps env stable pl packet

module _ {F32 : Type 0} (env : Env F32) {P : State F32 → Type 0}
    (proxied : (pl : Gw.Event F32) → Keeps P (emit (proxy_event pl))) where
  border_uplink-Keeps : (pl : UplinkFrame F32) → Keeps P (handle_uplink env true pl)
  unfolding handle_uplink proxy_uplink_lora_packet
  border_uplink-Keeps pl = Keeps-bind _ _ (Keeps-lift _) (λ u. send_event-Keeps env proxied _)

  pub border_event_msg-Keeps :
      (matches : List ℕ → Bool) (i : Bool) (event : Gw.Event F32)
      → Keeps P (handle_event_msg env matches true i event)
  unfolding handle_event_msg
  border_event_msg-Keeps matches i (Gw.Event.uplink_frame v) =
      handle_frame-Keeps env true border_uplink-Keeps matches i v v.rx_info
  border_event_msg-Keeps matches i (Gw.Event.gateway_stats v) = send_event-Keeps env proxied _
  border_event_msg-Keeps matches i (Gw.Event.mesh v) = Keeps-pure _
  border_event_msg-Keeps matches i Gw.Event.other_event = Keeps-pure _

  pub border_dispatch-Keeps :
      (pl : UplinkFrame F32) (packet : MeshPacket) → Keeps P (dispatch env true pl packet)
  unfolding dispatch
  border_dispatch-Keeps pl packet =
      proxy_packet-Keeps env proxied pl packet packet.mhdr.payload_type

module _ {F32 : Type 0} (env : Env F32) {P : State F32 → Type 0} (stable : IsStable env P)
    (proxied : (pl : Gw.Event F32) → Keeps P (emit (proxy_event pl))) where
  pub dispatch-Keeps :
      (b : Bool) (pl : UplinkFrame F32) (packet : MeshPacket) → Keeps P (dispatch env b pl packet)
  dispatch-Keeps true = border_dispatch-Keeps env proxied
  dispatch-Keeps false = relay_dispatch-Keeps env stable

  pub handle_event_msg-Keeps :
      (matches : List ℕ → Bool) (b i : Bool) (event : Gw.Event F32)
      → Keeps P (handle_event_msg env matches b i event)
  handle_event_msg-Keeps matches true = border_event_msg-Keeps env proxied matches
  handle_event_msg-Keeps matches false = relay_event_msg-Keeps env stable matches
