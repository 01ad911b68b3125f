-- ===== src/Mesh/Hops.antt =====
-- Which mesh packets a Relay Gateway sends on, and with which hop count.
use chirpstack_gateway_mesh.Common.{
  ◌≤◌, ◌<◌, ◌≡◌, refl, ◌∙◌, ap, false, [], ◌∷◌, ◌++◌, map, List, Option, none, some, ◌⊎◌, arith,
}
use chirpstack_gateway_mesh.Common.Bytes.{Bytes4}
use chirpstack_gateway_mesh.Common.Result.{Result, ok, ok_or, rx_info_is_none, relay_id_not_set}
use chirpstack_gateway_mesh.Common.Int.{as_i16}
use chirpstack_gateway_mesh.Packets.Event.{Event}
use chirpstack_gateway_mesh.Packets.MeshPacket
use chirpstack_gateway_mesh.Packets.MeshPacket.{MeshPacket, Payload}
use chirpstack_gateway_mesh.Gw.{UplinkFrame, UplinkRxInfo, DownlinkFrame}
use chirpstack_gateway_mesh.Runtime.{State, Env, mesh_frame, M, ◌>>=◌, lift, resume}
use chirpstack_gateway_mesh.Backend.{get_relay_id}
use chirpstack_gateway_mesh.Mesh.Relay.{
  payload_to_relay, retransmit, next_hop, send_on, add_hop, relay_mesh_packet,
}

-- The relay that a payload names: the sender of an uplink or event, the target of a downlink or
-- command.
unfoldable pub relay_id_of : Payload → Bytes4
relay_id_of (Payload.uplink v) = v.relay_id
relay_id_of (Payload.downlink v) = v.relay_id
relay_id_of (Payload.event v) = v.relay_id
relay_id_of (Payload.command v) = v.relay_id

module _ {F32 : Type 0} (env : Env F32) where
  -- Nothing was sent, or one mesh frame.
  abbrev pub AtMostOne : State F32 → State F32 → Type 0
  AtMostOne s t =
      (t.sent ≡ s.sent) ⊎ ((pl : DownlinkFrame) × (t.sent ≡ s.sent ++ mesh_frame pl ∷ []))

  over_limit :
      (packet : MeshPacket) (s : State F32)
      → env.conf.mesh.max_hop_count < packet.mhdr.hop_count
      → (retransmit env packet s).1 ≡ s
  unfolding retransmit MeshPacket.encrypt MeshPacket.set_mic ◌>>=◌
  over_limit packet s lt = ground arith

  none_left :
      (packet : MeshPacket) (payload : Payload) (s : State F32)
      → packet.mhdr.hop_count < 255
      → env.conf.mesh.max_hop_count ≤ packet.mhdr.hop_count
      → (send_on env packet (some payload) s).1 ≡ s
  unfolding send_on next_hop
  none_left packet payload s small limit =
      over_limit (next_hop packet payload) s (omega (arith, small, limit))

  -- This relay at the end of the path of a heartbeat; other events stay.
  abbrev pub with_hop : Bytes4 → UplinkRxInfo F32 → Event → Event
  with_hop relay_id rx_info (Event.heartbeat v) = Event.heartbeat (record {
    relay_path =
        v.relay_path
        ++ record {
          relay_id = relay_id;
          rssi = as_i16 rx_info.rssi;
          snr = env.f32_as_i8 rx_info.snr;
        }
          ∷ [];
  })
  with_hop relay_id rx_info (Event.proprietary t v) = Event.proprietary t v
  with_hop relay_id rx_info (Event.encrypted v) = Event.encrypted v

  add_hop-with_hop :
      (relay_id : Bytes4) (rx_info : UplinkRxInfo F32) (es : List Event)
      → map (add_hop env relay_id rx_info) es ≡ map (with_hop relay_id rx_info) es
  unfolding add_hop
  add_hop-with_hop relay_id rx_info [] = refl
  add_hop-with_hop relay_id rx_info (Event.heartbeat v ∷ es) =
      ap (λ l. with_hop relay_id rx_info (Event.heartbeat v) ∷ l)
        (add_hop-with_hop relay_id rx_info es)
  add_hop-with_hop relay_id rx_info (Event.proprietary t v ∷ es) =
      ap (λ l. Event.proprietary t v ∷ l) (add_hop-with_hop relay_id rx_info es)
  add_hop-with_hop relay_id rx_info (Event.encrypted v ∷ es) =
      ap (λ l. Event.encrypted v ∷ l) (add_hop-with_hop relay_id rx_info es)

  -- The payload that is sent on: this relay is added to the path of the heartbeats among events.
  abbrev pub passed_on : Bytes4 → UplinkRxInfo F32 → Payload → Payload
  passed_on relay_id rx_info (Payload.uplink v) = Payload.uplink v
  passed_on relay_id rx_info (Payload.downlink v) = Payload.downlink v
  passed_on relay_id rx_info (Payload.event v) =
      Payload.event (record v { events = map (with_hop relay_id rx_info) v.events })
  passed_on relay_id rx_info (Payload.command v) = Payload.command v

  -- A payload for which this relay is not named is sent on, and the decision changes no state.
  pub not_named :
      (relay_id : Bytes4) (rx_info : UplinkRxInfo F32) (p : Payload) (s : State F32)
      → MeshPacket.mic_eq (relay_id_of p) relay_id ≡ false
      → payload_to_relay env relay_id rx_info p s ≡ (ok (some (passed_on relay_id rx_info p)), s)
  unfolding payload_to_relay relay_id_of ◌>>=◌
  not_named relay_id rx_info (Payload.uplink v) s other = ground arith
  not_named relay_id rx_info (Payload.downlink v) s other = ground arith
  not_named relay_id rx_info (Payload.event v) s other =
      ground (arith, other, add_hop-with_hop relay_id rx_info v.events)
  not_named relay_id rx_info (Payload.command v) s other = ground arith

  -- A mesh packet that has no hops left is not sent on: the relay sends nothing, and its state stays.
  pub relay_over_limit :
      (pl : UplinkFrame F32) (packet : MeshPacket) (relay_id : Bytes4) (s : State F32)
      → env.relay_id ≡ some relay_id
      → MeshPacket.mic_eq (relay_id_of packet.payload) relay_id ≡ false
      → packet.mhdr.hop_count < 255
      → env.conf.mesh.max_hop_count ≤ packet.mhdr.hop_count
      → (relay_mesh_packet env pl packet s).1 ≡ s
  unfolding relay_mesh_packet get_relay_id ◌>>=◌
  relay_over_limit pl packet relay_id s id other small limit =
      ap (λ o. (sent_from (ok_or o relay_id_not_set) s).1) id ∙ go pl.rx_info
    where
      sent_from : Result Bytes4 → M (State F32) (Unit {0})
      sent_from r = do
        relay_id ← lift r
        rx_info ← lift (ok_or pl.rx_info rx_info_is_none)
        payload ← payload_to_relay env relay_id rx_info packet.payload
        send_on env packet payload

      sent_by : Option (UplinkRxInfo F32) → M (State F32) (Unit {0})
      sent_by r = do
        rx_info ← lift (ok_or r rx_info_is_none)
        payload ← payload_to_relay env relay_id rx_info packet.payload
        send_on env packet payload

      go : (r : Option (UplinkRxInfo F32)) → (sent_by r s).1 ≡ s
      go none = refl
      go (some rx_info) =
          ap (λ r. (resume r (send_on env packet)).1)
            (not_named relay_id rx_info packet.payload s other)
          ∙ none_left packet (passed_on relay_id rx_info packet.payload) s small limit
