-- ===== src/Node/Border.antt =====
-- The handlers of a Border Gateway's mesh packets keep what the sending of an event keeps.
use chirpstack_gateway_mesh.Common.{ℕ, List, [], ◌∷◌, Option, none, some}
use chirpstack_gateway_mesh.Packets.PayloadType.{PayloadType}
use chirpstack_gateway_mesh.Packets.Event.{Event}
use chirpstack_gateway_mesh.Packets.UplinkPayload.{UplinkPayload}
use chirpstack_gateway_mesh.Packets.MeshPacket.{MeshPacket, Payload}
use chirpstack_gateway_mesh.Gw
use chirpstack_gateway_mesh.Gw.{
  UplinkFrame, UplinkRxInfo, UplinkTxInfo, DownlinkFrame, DownlinkFrameItem,
}
use chirpstack_gateway_mesh.Runtime.{State, Env, proxy_event}
use chirpstack_gateway_mesh.Runtime.Keeps.{
  Keeps, Keeps-pure, Keeps-lift, Keeps-inspect, Keeps-bind, keeps_rules,
}
use chirpstack_gateway_mesh.Backend.{emit, send_event, get_gateway_id}
use chirpstack_gateway_mesh.Mesh.Proxy.{
  set_rx_info, set_tx_info, unwrap_uplink, proxy_uplink_mesh_packet, event_items, unwrap_event,
  proxy_event_mesh_packet,
}
use chirpstack_gateway_mesh.Mesh.Handle.{proxy_packet}

module _ {F32 : Type 0} (env : Env F32) {P : State F32 → Type 0}
    (proxied : (pl : Gw.Event F32) → Keeps P (emit (proxy_event pl))) where
  gateway_id-Keeps : Keeps P (get_gateway_id env)
  unfolding get_gateway_id
  gateway_id-Keeps = Keeps-lift _

  pub send_event-Keeps : (pl : Gw.Event F32) → Keeps P (send_event env pl)
  unfolding send_event
  send_event-Keeps pl = Keeps-bind _ _ (Keeps-inspect _) (λ u. proxied pl)

  set_rx_info-Keeps :
      (h : ℕ) (v : UplinkPayload) (r : Option (UplinkRxInfo F32)) → Keeps P (set_rx_info env h v r)
  unfolding set_rx_info
  set_rx_info-Keeps h v none = Keeps-pure _
  set_rx_info-Keeps h v (some r) = Keeps-bind _ _ (gateway_id-Keeps) (λ id. Keeps-pure _)

  set_tx_info-Keeps : (v : UplinkPayload) (t : Option UplinkTxInfo) → Keeps P (set_tx_info env v t)
  unfolding set_tx_info
  set_tx_info-Keeps v none = Keeps-pure _
  set_tx_info-Keeps v (some t) = search keeps_rules

  unwrap_uplink-Keeps :
      (pl : UplinkFrame F32) (h : ℕ) (p : Payload) → Keeps P (unwrap_uplink env pl h p)
  unfolding unwrap_uplink
  unwrap_uplink-Keeps pl h (Payload.uplink v) =
      Keeps-bind _ _ (set_rx_info-Keeps h v pl.rx_info)
        λ r. Keeps-bind _ _ (set_tx_info-Keeps v pl.tx_info) λ t. send_event-Keeps _
  unwrap_uplink-Keeps pl h (Payload.downlink v) = Keeps-lift _
  unwrap_uplink-Keeps pl h (Payload.event v) = Keeps-lift _
  unwrap_uplink-Keeps pl h (Payload.command v) = Keeps-lift _

  event_items-Keeps : (es : List Event) → Keeps P (event_items env es)
  unfolding event_items
  event_items-Keeps [] = Keeps-pure _
  event_items-Keeps (e ∷ es) = let rest = event_items-Keeps es in search keeps_rules

  unwrap_event-Keeps : (p : Payload) → Keeps P (unwrap_event env p)
  unfolding unwrap_event
  unwrap_event-Keeps (Payload.event v) =
      Keeps-bind _ _ (gateway_id-Keeps)
        λ id. Keeps-bind _ _ (event_items-Keeps v.events) λ items. send_event-Keeps _
  unwrap_event-Keeps (Payload.uplink v) = Keeps-lift _
  unwrap_event-Keeps (Payload.downlink v) = Keeps-lift _
  unwrap_event-Keeps (Payload.command v) = Keeps-lift _

  pub proxy_packet-Keeps :
      (pl : UplinkFrame F32) (packet : MeshPacket) (t : PayloadType)
      → Keeps P (proxy_packet env pl packet t)
  unfolding proxy_packet proxy_uplink_mesh_packet proxy_event_mesh_packet
  proxy_packet-Keeps pl packet PayloadType.uplink =
      unwrap_uplink-Keeps pl packet.mhdr.hop_count packet.payload
  proxy_packet-Keeps pl packet PayloadType.event = unwrap_event-Keeps packet.payload
  proxy_packet-Keeps pl packet PayloadType.downlink = Keeps-pure _
  proxy_packet-Keeps pl packet PayloadType.command = Keeps-pure _
