-- ===== src/Mesh/Relay.antt =====
-- What a Relay Gateway does: uplinks are put into mesh packets, and mesh packets are sent on.
use chirpstack_gateway_mesh.Common.{
  ◌+◌, ◌%◌, true, false, List, [], ◌∷◌, ◌++◌, map, ltb, Option, none, some,
}
use chirpstack_gateway_mesh.Common.Int.{pos, as_i16}
use chirpstack_gateway_mesh.Common.Bytes.{Bytes4}
use chirpstack_gateway_mesh.Common.Result.{
  reject_if, ok_or, rx_info_is_none, tx_info_is_none, modulation_is_none, max_hop_count_exceeded,
}
use chirpstack_gateway_mesh.Packets.PayloadType
use chirpstack_gateway_mesh.Packets.Event.{Event}
use chirpstack_gateway_mesh.Packets.RelayPath.{RelayPath}
use chirpstack_gateway_mesh.Packets.DownlinkPayload.{DownlinkPayload}
use chirpstack_gateway_mesh.Packets.CommandPayload.{CommandPayload}
use chirpstack_gateway_mesh.Packets.MeshPacket
use chirpstack_gateway_mesh.Packets.MeshPacket.{MeshPacket, Payload}
use chirpstack_gateway_mesh.Helpers.Mapping.{modulation_to_dr, frequency_to_chan, dr_to_modulation}
use chirpstack_gateway_mesh.Helpers.TxPower.{index_to_tx_power}
use chirpstack_gateway_mesh.Helpers.Ack.{tx_ack_to_err}
use chirpstack_gateway_mesh.Gw
use chirpstack_gateway_mesh.Gw.{UplinkFrame, UplinkRxInfo, DownlinkFrame}
use chirpstack_gateway_mesh.Runtime.{State, Env, M, ◌>>=◌, ◌>>◌, pure, lift}
use chirpstack_gateway_mesh.Backend.{mesh, send_downlink, get_relay_id, get_gateway_id, random}
use chirpstack_gateway_mesh.Commands.{execute_commands}
use chirpstack_gateway_mesh.Events.{send_events}
use chirpstack_gateway_mesh.Mesh.Counters.{store_uplink_context, get_uplink_context}
use chirpstack_gateway_mesh.Mesh.Send.{signing_key, encryption_key, mesh_frame_of}

-- `packet.mhdr.hop_count += 1` of a `u8`.
unfoldable pub next_hop : MeshPacket → Payload → MeshPacket
next_hop packet payload = record packet {
  mhdr = record (packet.mhdr) { hop_count = (packet.mhdr.hop_count + 1) % 256 };
  payload = payload;
}

module _ {F32 : Type 0} (env : Env F32) where
  -- The relayed uplink without its code: the context is stored first.
  unfoldable pub uplink_packet : UplinkFrame F32 → M (State F32) MeshPacket
  unfolding store_uplink_context modulation_to_dr frequency_to_chan get_relay_id
  uplink_packet pl = do
    rx_info ← lift (ok_or pl.rx_info rx_info_is_none)
    tx_info ← lift (ok_or pl.tx_info tx_info_is_none)
    modulation ← lift (ok_or tx_info.modulation modulation_is_none)
    uplink_id ← store_uplink_context rx_info.context
    dr ← lift (modulation_to_dr env.conf.mappings modulation)
    channel ← lift (frequency_to_chan env.conf.mappings tx_info.frequency)
    relay_id ← get_relay_id env
    pure (record {
      mhdr = record { payload_type = PayloadType.uplink; hop_count = 1 };
      payload = Payload.uplink (record {
        metadata = record {
          uplink_id = uplink_id;
          dr = dr;
          channel = channel;
          rssi = as_i16 rx_info.rssi;
          snr = env.f32_as_i8 rx_info.snr;
        };
        relay_id = relay_id;
        phy_payload = pl.phy_payload;
      });
      mic = none;
    })

  unfoldable pub relay_uplink_lora_packet : UplinkFrame F32 → M (State F32) (Unit {0})
  unfolding uplink_packet MeshPacket.set_mic signing_key random mesh_frame_of mesh
  relay_uplink_lora_packet pl = do
    packet ← uplink_packet pl
    packet ← lift (MeshPacket.set_mic env.cmac (signing_key env) packet)
    downlink_id ← random env
    frame ← mesh_frame_of env downlink_id packet
    mesh env frame

  -- The frame for the end device of a downlink that this relay is asked to send.
  unfoldable pub downlink_frame_of : DownlinkPayload → M (State F32) DownlinkFrame
  unfolding random index_to_tx_power dr_to_modulation get_uplink_context get_gateway_id
  downlink_frame_of v = do
    downlink_id ← random env
    power ← lift (index_to_tx_power env.conf.mappings v.metadata.tx_power)
    modulation ← lift (dr_to_modulation env.conf.mappings v.metadata.dr true)
    context ← get_uplink_context v.metadata.uplink_id
    gateway_id ← get_gateway_id env
    pure (record {
      downlink_id = downlink_id;
      items =
          record {
            phy_payload = v.phy_payload;
            tx_info = some (record {
              frequency = v.metadata.frequency;
              power = power;
              modulation = some modulation;
              timing = some (record {
                parameters = some (Gw.TimingParameters.delay (some (pos v.metadata.delay)));
              });
              context = context;
            });
          }
          ∷ [];
      gateway_id = env.hex_encode gateway_id;
    })

  unfoldable pub unwrap_downlink : DownlinkPayload → M (State F32) (Unit {0})
  unfolding downlink_frame_of send_downlink tx_ack_to_err
  unwrap_downlink v = do
    frame ← downlink_frame_of v
    tx_ack ← send_downlink env frame
    lift (tx_ack_to_err tx_ack)

  -- `if !resp.is_empty() { events::send_events(resp) }`.
  unfoldable pub respond : List Event → M (State F32) (Unit {0})
  unfolding send_events
  respond [] = pure tt
  respond (e ∷ es) = send_events env (e ∷ es)

  unfoldable pub execute : CommandPayload → M (State F32) (Unit {0})
  unfolding execute_commands respond
  execute v = do resp ← execute_commands env v; respond resp

  -- This relay is added to the path of a heartbeat.
  unfoldable pub add_hop : Bytes4 → UplinkRxInfo F32 → Event → Event
  add_hop relay_id rx_info (Event.heartbeat v) =
      let hop : RelayPath = record {
        relay_id = relay_id;
        rssi = as_i16 rx_info.rssi;
        snr = env.f32_as_i8 rx_info.snr;
      } in
      Event.heartbeat (record { relay_path = v.relay_path ++ hop ∷ [] })
  add_hop relay_id rx_info (Event.proprietary t v) = Event.proprietary t v
  add_hop relay_id rx_info (Event.encrypted v) = Event.encrypted v

  -- The payload to send on, or none where the packet ends here: the relay's own uplinks and events
  -- are dropped, and downlinks and commands for it are carried out.
  unfoldable pub payload_to_relay :
      Bytes4 → UplinkRxInfo F32 → Payload → M (State F32) (Option Payload)
  unfolding MeshPacket.mic_eq unwrap_downlink add_hop execute
  payload_to_relay relay_id rx_info (Payload.uplink v) =
      elim (MeshPacket.mic_eq v.relay_id relay_id) [
        | true ↦ pure none
        | false ↦ pure (some (Payload.uplink v))
      ]
  payload_to_relay relay_id rx_info (Payload.downlink v) =
      elim (MeshPacket.mic_eq v.relay_id relay_id) [
        | true ↦ unwrap_downlink v >> pure none
        | false ↦ pure (some (Payload.downlink v))
      ]
  payload_to_relay relay_id rx_info (Payload.event v) =
      elim (MeshPacket.mic_eq v.relay_id relay_id) [
        | true ↦ pure none
        | false ↦
            pure
              (some (Payload.event (record v { events = map (add_hop relay_id rx_info) v.events })))
      ]
  payload_to_relay relay_id rx_info (Payload.command v) =
      elim (MeshPacket.mic_eq v.relay_id relay_id) [
        | true ↦ execute v >> pure none
        | false ↦ pure (some (Payload.command v))
      ]

  -- Encryption and the code come before the test of the hop count.
  unfoldable pub retransmit : MeshPacket → M (State F32) (Unit {0})
  unfolding MeshPacket.encrypt MeshPacket.set_mic encryption_key signing_key random mesh_frame_of
      mesh
  retransmit packet = do
    packet ← lift (MeshPacket.encrypt env.aes (encryption_key env) packet)
    packet ← lift (MeshPacket.set_mic env.cmac (signing_key env) packet)
    lift (reject_if (ltb env.conf.mesh.max_hop_count packet.mhdr.hop_count) max_hop_count_exceeded)
    downlink_id ← random env
    frame ← mesh_frame_of env downlink_id packet
    mesh env frame

  unfoldable pub send_on : MeshPacket → Option Payload → M (State F32) (Unit {0})
  unfolding retransmit next_hop
  send_on packet none = pure tt
  send_on packet (some payload) = retransmit (next_hop packet payload)

  unfoldable pub relay_mesh_packet : UplinkFrame F32 → MeshPacket → M (State F32) (Unit {0})
  unfolding get_relay_id payload_to_relay send_on
  relay_mesh_packet pl packet = do
    relay_id ← get_relay_id env
    rx_info ← lift (ok_or pl.rx_info rx_info_is_none)
    payload ← payload_to_relay relay_id rx_info packet.payload
    send_on packet payload
