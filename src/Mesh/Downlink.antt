-- ===== src/Mesh/Downlink.antt =====
-- Downlinks from the proxy API: those of the Border Gateway's own uplinks are passed on, the others
-- are put into mesh packets for the relay that received the uplink.
use chirpstack_gateway_mesh.Common.{
  ℕ, Bool, true, false, ◌&&◌, ◌==◌, List, [], ◌∷◌, length, take, drop, map, Option, none, some,
}
use chirpstack_gateway_mesh.Common.Int.{ℤ, as_u8}
use chirpstack_gateway_mesh.Common.Bytes.{Bytes6, bytes4, copy6, u16_from_be_bytes}
use chirpstack_gateway_mesh.Common.Result.{
  Result, ok, err, ok_or, tx_info_is_none, modulation_is_none, timing_is_none, only_delay_timing,
  context_too_short,
}
use chirpstack_gateway_mesh.Aes128.{bytes_eq}
use chirpstack_gateway_mesh.Packets.PayloadType
use chirpstack_gateway_mesh.Packets.MeshPacket
use chirpstack_gateway_mesh.Packets.MeshPacket.{MeshPacket, Payload}
use chirpstack_gateway_mesh.Helpers.Mapping.{modulation_to_dr}
use chirpstack_gateway_mesh.Helpers.TxPower.{tx_power_to_index}
use chirpstack_gateway_mesh.Gw.{
  DownlinkFrame, DownlinkFrameItem, DownlinkTxAck, DownlinkTxInfo, TxAckStatus, TimingParameters,
}
use chirpstack_gateway_mesh.Runtime.{State, Env, M, ◌>>=◌, pure, lift, attempt}
use chirpstack_gateway_mesh.Backend.{mesh}
use chirpstack_gateway_mesh.Mesh.Proxy.{ctx_prefix, proxy_downlink_lora_packet}
use chirpstack_gateway_mesh.Mesh.Send.{signing_key, mesh_frame_of}

-- `v.seconds as u8`, and 0 without a duration.
abbrev pub delay_seconds : Option ℤ → ℕ
delay_seconds none = 0
delay_seconds (some seconds) = as_u8 seconds

unfoldable pub delay_of : Option TimingParameters → Result ℕ
delay_of (some (TimingParameters.delay v)) = ok (delay_seconds v)
delay_of (some TimingParameters.immediately) = err only_delay_timing
delay_of (some TimingParameters.gps_epoch) = err only_delay_timing
delay_of none = err only_delay_timing

-- `context.get(3..9)`.
unfoldable pub context_of : List ℕ → Result Bytes6
context_of context = elim (length (take 6 (drop 3 context)) == 6) [
  | true ↦ copy6 (take 6 (drop 3 context))
  | false ↦ err context_too_short
]

-- The context is nine bytes and starts with the prefix of a relayed uplink.
unfoldable pub is_relay_context : List ℕ → Bool
unfolding bytes_eq
is_relay_context context = (length context == 9) && bytes_eq (take 3 context) ctx_prefix

module _ {F32 : Type 0} (env : Env F32) where
  unfoldable pub packet_of : DownlinkFrameItem → DownlinkTxInfo → M (State F32) MeshPacket
  unfolding delay_of context_of modulation_to_dr tx_power_to_index MeshPacket.set_mic signing_key
  packet_of item tx_info = do
    modulation ← lift (ok_or tx_info.modulation modulation_is_none)
    timing ← lift (ok_or tx_info.timing timing_is_none)
    delay ← lift (delay_of timing.parameters)
    ctx ← lift (context_of tx_info.context)
    dr ← lift (modulation_to_dr env.conf.mappings modulation)
    tx_power ← lift (tx_power_to_index env.conf.mappings tx_info.power)
    lift (
        MeshPacket.set_mic env.cmac (signing_key env) (record {
          mhdr = record { payload_type = PayloadType.downlink; hop_count = 1 };
          payload = Payload.downlink (record {
            phy_payload = item.phy_payload;
            relay_id = bytes4 ctx.b0 ctx.b1 ctx.b2 ctx.b3;
            metadata = record {
              uplink_id = u16_from_be_bytes ctx.b4 ctx.b5;
              dr = dr;
              frequency = tx_info.frequency;
              tx_power = tx_power;
              delay = delay;
            };
          });
          mic = none;
        }))

  -- The frame of one item, which is then sent.
  unfoldable pub item_frame : ℕ → DownlinkFrameItem → M (State F32) DownlinkFrame
  unfolding packet_of mesh_frame_of
  item_frame downlink_id item = do
    tx_info ← lift (ok_or item.tx_info tx_info_is_none)
    packet ← packet_of item tx_info
    mesh_frame_of env downlink_id packet

  -- The statuses of the items: after the first that is sent, the others are ignored.
  unfoldable pub relay_items : ℕ → List DownlinkFrameItem → M (State F32) (List TxAckStatus)
  unfolding item_frame mesh
  relay_items downlink_id [] = pure []
  relay_items downlink_id (item ∷ items) = item_frame downlink_id item >>= λ pl.
      attempt (mesh env pl) >>= λ sent. elim sent [
        | some u ↦ pure (TxAckStatus.ack_ok ∷ map (λ i. TxAckStatus.ignored) items)
        | none ↦ relay_items downlink_id items >>= λ statuses.
            pure (TxAckStatus.internal_error ∷ statuses)
      ]

  unfoldable pub relay_downlink_lora_packet : DownlinkFrame → M (State F32) DownlinkTxAck
  unfolding relay_items
  relay_downlink_lora_packet pl = do
    items ← relay_items pl.downlink_id pl.items
    pure (record { gateway_id = pl.gateway_id; downlink_id = pl.downlink_id; items = items })

  unfoldable pub proxy_or_relay : DownlinkFrame → DownlinkTxInfo → M (State F32) DownlinkTxAck
  unfolding is_relay_context proxy_downlink_lora_packet relay_downlink_lora_packet
  proxy_or_relay pl tx_info = elim (is_relay_context tx_info.context) [
    | true ↦ relay_downlink_lora_packet pl
    | false ↦ proxy_downlink_lora_packet env pl
  ]

  unfoldable pub handle_items : DownlinkFrame → List DownlinkFrameItem → M (State F32) DownlinkTxAck
  unfolding relay_downlink_lora_packet proxy_or_relay
  handle_items pl [] = relay_downlink_lora_packet pl
  handle_items pl (first_item ∷ items) = do
    tx_info ← lift (ok_or first_item.tx_info tx_info_is_none)
    proxy_or_relay pl tx_info

  unfoldable pub handle_downlink : DownlinkFrame → M (State F32) DownlinkTxAck
  unfolding handle_items
  handle_downlink pl = handle_items pl pl.items
