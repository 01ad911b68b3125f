-- ===== src/Node/Settled/Border.antt =====
-- The handlers of a Border Gateway return.
use chirpstack_gateway_mesh.Common.{
  ℕ, false, List, [], ◌∷◌, Option, none, some, All, map, arith, take, drop,
}
use chirpstack_gateway_mesh.Common.Bytes.{copy6-IsSettled}
use chirpstack_gateway_mesh.Common.Result.{IsSettled, IsSettled-ok_or}
use chirpstack_gateway_mesh.Packets.PayloadType.{PayloadType}
use chirpstack_gateway_mesh.Packets.Event
use chirpstack_gateway_mesh.Packets.Event.{Event}
use chirpstack_gateway_mesh.Packets.UplinkPayload.{UplinkPayload}
use chirpstack_gateway_mesh.Packets.MeshPacket
use chirpstack_gateway_mesh.Packets.MeshPacket.{MeshPacket, Payload, IsMac, IsPlain}
use chirpstack_gateway_mesh.Gw
use chirpstack_gateway_mesh.Gw.{
  UplinkFrame, UplinkRxInfo, UplinkTxInfo, DownlinkFrame, DownlinkFrameItem, DownlinkTxAck,
}
use chirpstack_gateway_mesh.Helpers.Settled.{
  format_downlink-IsSettled, chan_to_frequency-IsSettled, modulation_to_dr-IsSettled,
  dr_to_modulation-IsSettled, tx_power_to_index-IsSettled,
}
use chirpstack_gateway_mesh.Runtime.{Env, ◌>>=◌, pure}
use chirpstack_gateway_mesh.Runtime.Settles.{
  Settles, Settles-pure, Settles-lift, Settles-attempt, Settles-split, Settles-bind,
}
use chirpstack_gateway_mesh.Mesh.Send.{signing_key}
use chirpstack_gateway_mesh.Mesh.Proxy.{
  proxy_downlink_lora_packet, set_rx_info, set_tx_info, unwrap_uplink, proxy_uplink_mesh_packet,
  event_items, event_item, unwrap_event, proxy_event_mesh_packet,
}
use chirpstack_gateway_mesh.Mesh.Downlink.{
  packet_of, item_frame, relay_items, relay_downlink_lora_packet, proxy_or_relay, handle_items,
  handle_downlink, is_relay_context, delay_of, context_of,
}
use chirpstack_gateway_mesh.Mesh.Handle.{proxy_packet, send_mesh_command}
use chirpstack_gateway_mesh.Node.Settled.Senders.{
  IsResponsive, now-Settles, gateway_id-Settles, frame-Settles, mesh-Settles, seal-Settles,
  send_event-Settles, send_downlink-Settles,
}

delay-IsSettled : (p : Option Gw.TimingParameters) → IsSettled (delay_of p)
unfolding delay_of
delay-IsSettled none = tt
delay-IsSettled (some (Gw.TimingParameters.delay v)) = tt
delay-IsSettled (some Gw.TimingParameters.immediately) = tt
delay-IsSettled (some Gw.TimingParameters.gps_epoch) = tt

context-IsSettled : (c : List ℕ) → IsSettled (context_of c)
unfolding context_of
context-IsSettled c = ground (arith, copy6-IsSettled (take 6 (drop 3 c)))

module _ {F32 : Type 0} (env : Env F32) (resp : IsResponsive env) where
  set_rx_info-Settles :
      (h : ℕ) (v : UplinkPayload) (r : Option (UplinkRxInfo F32)) → Settles (set_rx_info env h v r)
  unfolding set_rx_info
  set_rx_info-Settles h v none = Settles-pure _
  set_rx_info-Settles h v (some r) = Settles-bind _ _ (gateway_id-Settles env) λ id. Settles-pure _

  set_tx_info-Settles :
      (v : UplinkPayload) (t : Option UplinkTxInfo) → Settles (set_tx_info env v t)
  unfolding set_tx_info
  set_tx_info-Settles v none = Settles-pure _
  set_tx_info-Settles v (some t) =
      Settles-bind _ _
        (Settles-lift _ (chan_to_frequency-IsSettled env.conf.mappings v.metadata.channel))
        λ f.
          Settles-bind _ _
            (Settles-lift _ (dr_to_modulation-IsSettled env.conf.mappings v.metadata.dr false))
            λ m. Settles-pure _

  unwrap_uplink-Settles :
      (pl : UplinkFrame F32) (h : ℕ) (p : Payload) → Settles (unwrap_uplink env pl h p)
  unfolding unwrap_uplink
  unwrap_uplink-Settles pl h (Payload.uplink v) =
      Settles-bind _ _ (set_rx_info-Settles h v pl.rx_info)
        λ r. Settles-bind _ _ (set_tx_info-Settles v pl.tx_info) λ t. send_event-Settles env resp _
  unwrap_uplink-Settles pl h (Payload.downlink v) = Settles-lift _ tt
  unwrap_uplink-Settles pl h (Payload.event v) = Settles-lift _ tt
  unwrap_uplink-Settles pl h (Payload.command v) = Settles-lift _ tt

  event_item-IsSettled : (e : Event) → Event.IsPlain e → IsSettled (event_item env e)
  unfolding event_item
  event_item-IsSettled (Event.heartbeat v) h = tt
  event_item-IsSettled (Event.proprietary t v) h = tt
  event_item-IsSettled (Event.encrypted v) h = absurd h

  event_items-Settles : (es : List Event) → All Event.IsPlain es → Settles (event_items env es)
  unfolding event_items
  event_items-Settles [] h = Settles-pure _
  event_items-Settles (e ∷ es) h =
      Settles-bind _ _ (Settles-lift _ (event_item-IsSettled e h.0))
        λ i. Settles-bind _ _ (event_items-Settles es h.1) λ is. Settles-pure _

  unwrap_event-Settles : (p : Payload) → IsPlain p → Settles (unwrap_event env p)
  unfolding unwrap_event
  unwrap_event-Settles (Payload.event v) h =
      Settles-bind _ _ (gateway_id-Settles env) λ id.
        Settles-bind _ _ (event_items-Settles v.events h) λ items. send_event-Settles env resp _
  unwrap_event-Settles (Payload.uplink v) h = Settles-lift _ tt
  unwrap_event-Settles (Payload.downlink v) h = Settles-lift _ tt
  unwrap_event-Settles (Payload.command v) h = Settles-lift _ tt

  pub proxy_packet-Settles :
      (pl : UplinkFrame F32) (packet : MeshPacket) (t : PayloadType)
      → IsPlain packet.payload
      → Settles (proxy_packet env pl packet t)
  unfolding proxy_packet proxy_uplink_mesh_packet proxy_event_mesh_packet
  proxy_packet-Settles pl packet PayloadType.uplink h =
      unwrap_uplink-Settles pl packet.mhdr.hop_count packet.payload
  proxy_packet-Settles pl packet PayloadType.event h = unwrap_event-Settles packet.payload h
  proxy_packet-Settles pl packet PayloadType.downlink h = Settles-pure _
  proxy_packet-Settles pl packet PayloadType.command h = Settles-pure _

  packet_of-Settles :
      (item : DownlinkFrameItem) (t : Gw.DownlinkTxInfo) → Settles (packet_of env item t)
  unfolding packet_of
  packet_of-Settles item t = Settles-bind _ _ (Settles-lift _ (IsSettled-ok_or t.modulation _)) λ m.
      Settles-bind _ _ (Settles-lift _ (IsSettled-ok_or t.timing _)) λ timing.
        Settles-bind _ _ (Settles-lift _ (delay-IsSettled timing.parameters)) λ d.
          Settles-bind _ _ (Settles-lift _ (context-IsSettled t.context)) λ c.
            Settles-bind _ _ (Settles-lift _ (modulation_to_dr-IsSettled env.conf.mappings m)) λ dr.
              Settles-bind _ _
                (Settles-lift _ (tx_power_to_index-IsSettled env.conf.mappings t.power))
                λ p.
                  Settles-lift _
                    (MeshPacket.set_mic-IsSettled env.cmac resp.mac (signing_key env) _)

  item_frame-Settles : (id : ℕ) (item : DownlinkFrameItem) → Settles (item_frame env id item)
  unfolding item_frame
  item_frame-Settles id item =
      Settles-bind _ _ (Settles-lift _ (IsSettled-ok_or item.tx_info _))
        λ t. Settles-bind _ _ (packet_of-Settles item t) (frame-Settles env id)

  rest_of_items-Settles :
      (id : ℕ) (items : List DownlinkFrameItem)
      → Settles (relay_items env id items)
      → (sent : Option (Unit {0}))
      → Settles (elim sent [
        | some u ↦ pure (Gw.TxAckStatus.ack_ok ∷ map (λ i. Gw.TxAckStatus.ignored) items)
        | none ↦
            relay_items env id items >>= λ statuses. pure (Gw.TxAckStatus.internal_error ∷ statuses)
      ])
  rest_of_items-Settles id items rest none = Settles-bind _ _ rest λ statuses. Settles-pure _
  rest_of_items-Settles id items rest (some u) = Settles-pure _

  relay_items-Settles :
      (id : ℕ) (items : List DownlinkFrameItem) → Settles (relay_items env id items)
  unfolding relay_items
  relay_items-Settles id [] = Settles-pure _
  relay_items-Settles id (item ∷ items) = Settles-bind _ _ (item_frame-Settles id item) λ pl.
      Settles-bind _ _ (Settles-attempt _ (mesh-Settles env resp pl))
        (rest_of_items-Settles id items (relay_items-Settles id items))

  relay_downlink-Settles : (pl : DownlinkFrame) → Settles (relay_downlink_lora_packet env pl)
  unfolding relay_downlink_lora_packet
  relay_downlink-Settles pl = Settles-bind _ _ (relay_items-Settles _ _) λ items. Settles-pure _

  handle_items-Settles :
      (pl : DownlinkFrame) (items : List DownlinkFrameItem) → Settles (handle_items env pl items)
  unfolding handle_items proxy_or_relay proxy_downlink_lora_packet
  handle_items-Settles pl [] = relay_downlink-Settles pl
  handle_items-Settles pl (item ∷ items) =
      Settles-bind _ _ (Settles-lift _ (IsSettled-ok_or item.tx_info _)) λ t.
        Settles-split (is_relay_context t.context) (relay_downlink_lora_packet env pl) _
          (relay_downlink-Settles pl)
          (Settles-bind _ _ (Settles-lift _ (format_downlink-IsSettled pl))
            λ u. send_downlink-Settles env resp pl)

  pub handle_downlink-Settles : (pl : DownlinkFrame) → Settles (handle_downlink env pl)
  unfolding handle_downlink
  handle_downlink-Settles pl = handle_items-Settles pl pl.items

  pub send_mesh_command-Settles : (pl : Gw.MeshCommand) → Settles (send_mesh_command env pl)
  unfolding send_mesh_command
  send_mesh_command-Settles pl =
      Settles-bind _ _ (now-Settles env)
        λ t. Settles-bind _ _ (Settles-lift _ (resp.hex _)) λ id. seal-Settles env resp _
