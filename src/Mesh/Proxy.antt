-- ===== src/Mesh/Proxy.antt =====
-- What the Border Gateway does: uplinks and events are passed on to the proxy API.
use chirpstack_gateway_mesh.Common.{
  ℕ, ◌/◌, ◌%◌, false, List, [], ◌∷◌, ◌++◌, map, Option, none, some,
}
use chirpstack_gateway_mesh.Common.Bytes.{to_list}
use chirpstack_gateway_mesh.Common.Result.{
  Result, ok, err, panicked, expected_uplink_payload, expected_event_payload,
}
use chirpstack_gateway_mesh.Packets.Event.{Event}
use chirpstack_gateway_mesh.Packets.RelayPath.{RelayPath}
use chirpstack_gateway_mesh.Packets.UplinkPayload.{UplinkPayload}
use chirpstack_gateway_mesh.Packets.MeshPacket.{MeshPacket, Payload}
use chirpstack_gateway_mesh.Helpers.Mapping.{chan_to_frequency, dr_to_modulation}
use chirpstack_gateway_mesh.Helpers.Ack.{format_uplink, format_downlink}
use chirpstack_gateway_mesh.Gw
use chirpstack_gateway_mesh.Gw.{
  UplinkFrame, UplinkRxInfo, UplinkTxInfo, DownlinkFrame, DownlinkTxAck, MeshEventItem,
  HeartbeatRelayPath,
}
use chirpstack_gateway_mesh.Runtime.{State, Env, M, ◌>>=◌, ◌>>◌, pure, lift}
use chirpstack_gateway_mesh.Backend.{send_event, send_downlink, get_gateway_id}

-- `CTX_PREFIX`.
abbrev pub ctx_prefix : List ℕ
ctx_prefix = 1 ∷ 2 ∷ 3 ∷ []

-- `uplink_id.to_be_bytes()`.
abbrev pub u16_to_be_bytes : ℕ → List ℕ
u16_to_be_bytes x = x / 256 % 256 ∷ x % 256 ∷ []

-- The context from which the downlink is later relayed.
unfoldable pub relay_context : UplinkPayload → List ℕ
relay_context v = ctx_prefix ++ to_list v.relay_id ++ u16_to_be_bytes v.metadata.uplink_id

module _ {F32 : Type 0} (env : Env F32) where
  unfoldable pub proxy_downlink_lora_packet : DownlinkFrame → M (State F32) DownlinkTxAck
  unfolding format_downlink send_downlink
  proxy_downlink_lora_packet pl = do lift (format_downlink pl); send_downlink env pl

  unfoldable pub proxy_uplink_lora_packet : UplinkFrame F32 → M (State F32) (Unit {0})
  unfolding format_uplink send_event
  proxy_uplink_lora_packet pl = do
    lift (format_uplink pl)
    send_event env (Gw.Event.uplink_frame pl)

  -- `if let Some(rx_info) = &mut pl.rx_info { .. }`.
  unfoldable pub set_rx_info :
      ℕ → UplinkPayload → Option (UplinkRxInfo F32) → M (State F32) (Option (UplinkRxInfo F32))
  unfolding get_gateway_id relay_context
  set_rx_info hop_count v none = pure none
  set_rx_info hop_count v (some rx_info) = do
    gateway_id ← get_gateway_id env
    pure (
        some (record rx_info {
          gateway_id = env.hex_encode gateway_id;
          hop_count = some hop_count;
          relay_id = some (env.hex_encode (to_list v.relay_id));
          snr = env.f32_of_i8 v.metadata.snr;
          rssi = v.metadata.rssi;
          context = relay_context v;
        }))

  -- `if let Some(tx_info) = &mut pl.tx_info { .. }`.
  unfoldable pub set_tx_info :
      UplinkPayload → Option UplinkTxInfo → M (State F32) (Option UplinkTxInfo)
  unfolding chan_to_frequency dr_to_modulation
  set_tx_info v none = pure none
  set_tx_info v (some tx_info) = do
    frequency ← lift (chan_to_frequency env.conf.mappings v.metadata.channel)
    modulation ← lift (dr_to_modulation env.conf.mappings v.metadata.dr false)
    pure (some (record { frequency = frequency; modulation = some modulation }))

  unfoldable pub unwrap_uplink : UplinkFrame F32 → ℕ → Payload → M (State F32) (Unit {0})
  unfolding set_rx_info set_tx_info send_event
  unwrap_uplink pl hop_count (Payload.uplink v) = do
    rx_info ← set_rx_info hop_count v pl.rx_info
    tx_info ← set_tx_info v pl.tx_info
    send_event env (
        Gw.Event.uplink_frame
          (record { phy_payload = v.phy_payload; tx_info = tx_info; rx_info = rx_info }))
  unwrap_uplink pl hop_count _ = lift (err expected_uplink_payload)

  unfoldable pub proxy_uplink_mesh_packet : UplinkFrame F32 → MeshPacket → M (State F32) (Unit {0})
  unfolding unwrap_uplink
  proxy_uplink_mesh_packet pl packet = unwrap_uplink pl packet.mhdr.hop_count packet.payload

  unfoldable pub hop_of : RelayPath → HeartbeatRelayPath
  hop_of v = record { relay_id = env.hex_encode (to_list v.relay_id); rssi = v.rssi; snr = v.snr }

  -- The item of an event; ciphertext would panic.
  unfoldable pub event_item : Event → Result MeshEventItem
  unfolding hop_of
  event_item (Event.heartbeat v) = ok (MeshEventItem.heartbeat (map hop_of v.relay_path))
  event_item (Event.proprietary t v) = ok (MeshEventItem.proprietary t v)
  event_item (Event.encrypted v) = panicked

  unfoldable pub event_items : List Event → M (State F32) (List MeshEventItem)
  unfolding event_item
  event_items [] = pure []
  event_items (e ∷ es) = do item ← lift (event_item e); items ← event_items es; pure (item ∷ items)

  unfoldable pub unwrap_event : Payload → M (State F32) (Unit {0})
  unfolding get_gateway_id event_items send_event
  unwrap_event (Payload.event v) = do
    gateway_id ← get_gateway_id env
    items ← event_items v.events
    send_event env (
        Gw.Event.mesh (record {
          gateway_id = env.hex_encode gateway_id;
          relay_id = env.hex_encode (to_list v.relay_id);
          time = v.timestamp;
          events = items;
        }))
  unwrap_event _ = lift (err expected_event_payload)

  unfoldable pub proxy_event_mesh_packet : UplinkFrame F32 → MeshPacket → M (State F32) (Unit {0})
  unfolding unwrap_event
  proxy_event_mesh_packet pl packet = unwrap_event packet.payload
