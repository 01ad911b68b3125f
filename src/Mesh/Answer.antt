-- ===== src/Mesh/Answer.antt =====
-- The way of a downlink: from the Border Gateway, which gets it from the network server, to the
-- relay that received the uplink.
mod Sent
mod Received
pub use Sent.{answer_packet, answer_payload}
pub use Received.{device_frame, ends}
use Sent.{packed, first_sent, answered}
use Received.{device_frame_sent, relay_answers}
use chirpstack_gateway_mesh.Common.{
  ℕ, ◌+◌, ◌≤◌, ◌<◌, ◌≡◌, refl, sym, ◌∙◌, ap, ap₂, true, false, List, [], ◌∷◌, ◌++◌, map, Option,
  some, none, length, arith,
}
use chirpstack_gateway_mesh.Common.Int.{ℤ, pos}
use chirpstack_gateway_mesh.Common.Bytes.{Bytes4}
use chirpstack_gateway_mesh.Common.Result
use chirpstack_gateway_mesh.Common.Result.{
  Result, ok, err, panicked, diverged, ok_or, ok_injective, rx_info_is_none, tx_info_is_none,
  modulation_is_none, timing_is_none, relay_id_not_set, gateway_id_not_set,
}
use chirpstack_gateway_mesh.Aes128.{IsBlockCipher}
use chirpstack_gateway_mesh.Cache
use chirpstack_gateway_mesh.Cache.PayloadCache.{payload_cache_eq, from_packet}
use chirpstack_gateway_mesh.Packets.PayloadType
use chirpstack_gateway_mesh.Packets.UplinkPayload.{UplinkPayload}
use chirpstack_gateway_mesh.Packets.DownlinkPayload.{DownlinkPayload}
use chirpstack_gateway_mesh.Packets.MeshPacket
use chirpstack_gateway_mesh.Packets.MeshPacket.{
  MeshPacket, Payload, IsMac, IsSendable, seal, transport, mic_eq_iff,
}
use chirpstack_gateway_mesh.Helpers.Mapping.{
  modulation_to_dr, dr_to_modulation, HasByteFactor, as_sent, dr_to_modulation-modulation_to_dr,
}
use chirpstack_gateway_mesh.Helpers.TxPower.{tx_power_to_index, index_to_tx_power}
use chirpstack_gateway_mesh.Helpers.Ack.{format_downlink, tx_ack_to_err}
use chirpstack_gateway_mesh.Gw
use chirpstack_gateway_mesh.Gw.{
  UplinkFrame, UplinkRxInfo, DownlinkFrame, DownlinkFrameItem, DownlinkTxInfo, DownlinkTxAck,
  TxAckStatus,
}
use chirpstack_gateway_mesh.Runtime.{
  State, Env, M, mesh_frame, downlink_frame, ◌>>=◌, ◌>>◌, lift, pure, attempt, resume,
}
use chirpstack_gateway_mesh.Runtime.Returns
use chirpstack_gateway_mesh.Backend.{
  mesh, ask_mesh, emit, get_relay_id, get_gateway_id, send_downlink, random,
}
use chirpstack_gateway_mesh.Mesh.Counters.{get_uplink_context}
use chirpstack_gateway_mesh.Mesh.Send.{mesh_frame_of, mesh_tx_info, signing_key, encryption_key}
use chirpstack_gateway_mesh.Mesh.Proxy.{relay_context, proxy_downlink_lora_packet}
use chirpstack_gateway_mesh.Mesh.Context.{context_of-relay_context}
use chirpstack_gateway_mesh.Mesh.Downlink.{
  delay_seconds, delay_of, context_of, is_relay_context, packet_of, item_frame, relay_items,
  relay_downlink_lora_packet, proxy_or_relay, handle_items, handle_downlink,
}
use chirpstack_gateway_mesh.Mesh.Relay.{
  downlink_frame_of, unwrap_downlink, payload_to_relay, send_on, relay_mesh_packet,
}
use chirpstack_gateway_mesh.Mesh.Handle.{handle_mesh, dispatch}
use chirpstack_gateway_mesh.Mesh.Forward.{
  SentOne, framed, mesh_frame_with, fresh_packet, encryption_key-length,
}
use chirpstack_gateway_mesh.Mesh.Deliver.{SharesMesh}

module _ {F32 : Type 0} (border relay : Env F32) where
  plain_downlink :
      (w : DownlinkPayload)
      → MeshPacket.encrypt border.aes (encryption_key border) (answer_packet w)
        ≡ ok (answer_packet w)
  unfolding MeshPacket.encrypt MeshPacket.encrypt_payload
  plain_downlink w = refl

  -- A downlink of the network server reaches the end device through the relay that heard it. If its first
  -- item has the context of a relayed uplink, a delay, and a configured data rate and power, and what
  -- the Border Gateway makes of it fits the fields of a mesh packet (frequency, delay and the like), and its
  -- Concentratord acknowledges the frame, then the Border Gateway sends exactly one frame to the
  -- mesh, and answers that the first item was sent and the others were ignored. When the named relay of
  -- the same mesh receives these bytes for the first time, it sends exactly one frame to its end devices:
  -- the item's payload at its frequency and data rate, with the polarization inverted, with the delay, the
  -- context that the relay stored for the uplink, and the power that the table has at the index to which
  -- the item's power is mapped.
  pub downlink_delivered :
      (pl : DownlinkFrame) (item : DownlinkFrameItem) (items : List DownlinkFrameItem)
      (tx_info : DownlinkTxInfo) (v : UplinkPayload) (parameters : Gw.ModulationParameters)
      (seconds : Option ℤ) (dr tx_power : ℕ) (power : ℤ) (wire : List ℕ) (ack : DownlinkTxAck)
      (at_relay : UplinkFrame F32) (rx_info : UplinkRxInfo F32) (got : MeshPacket)
      (context gateway_id : List ℕ) (s t : State F32)
      → IsBlockCipher border.aes
      → IsMac border.cmac
      → length border.conf.mesh.root_key.bytes ≡ 16
      → 0 < length border.conf.mesh.frequencies
      → SharesMesh border relay
      → length border.conf.mappings.data_rates ≤ 256
      → HasByteFactor parameters
      → pl.items ≡ item ∷ items
      → item.tx_info ≡ some tx_info
      → tx_info.context ≡ relay_context v
      → v.metadata.uplink_id < 65536
      → tx_info.modulation ≡ some (record { parameters = some parameters })
      → tx_info.timing ≡ some (record { parameters = some (Gw.TimingParameters.delay seconds) })
      → modulation_to_dr border.conf.mappings (record { parameters = some parameters }) ≡ ok dr
      → tx_power_to_index border.conf.mappings tx_info.power ≡ ok tx_power
      → index_to_tx_power border.conf.mappings tx_power ≡ ok power
      → let w = answer_payload v item tx_info dr tx_power (delay_seconds seconds) in
        IsSendable (answer_packet w)
        → seal border.aes border.cmac (encryption_key border) (signing_key border) (answer_packet w)
          ≡ ok wire
        → ((frame : DownlinkFrame) → border.mesh_reply s.sent frame ≡ ok ack)
        → tx_ack_to_err ack ≡ ok tt
        → at_relay.phy_payload ≡ wire
        → MeshPacket.from_slice wire ≡ ok got
        → Cache.contains payload_cache_eq t.payload_cache.deque (from_packet got) ≡ false
        → at_relay.rx_info ≡ some rx_info
        → relay.relay_id ≡ some v.relay_id
        → relay.gateway_id ≡ some gateway_id
        → t.uplink_context v.metadata.uplink_id ≡ some context
        → ((handle_downlink border pl s).0
            ≡ ok (record {
              gateway_id = pl.gateway_id;
              downlink_id = pl.downlink_id;
              items = TxAckStatus.ack_ok ∷ map (λ i. TxAckStatus.ignored) items;
            }))
          × SentOne border wire s (handle_downlink border pl s).1
          × ((handle_mesh relay false at_relay t).1.sent
              ≡ t.sent
                ++ downlink_frame (
                    device_frame relay w
                      (relay.random t.reads)
                      power
                      (record { parameters = some (as_sent parameters true) })
                      context
                      gateway_id)
                  ∷ [])
  unfolding dispatch pure
  downlink_delivered pl item items tx_info v parameters seconds dr tx_power power wire ack at_relay
        rx_info got context gateway_id s t cipher mac sixteen some_frequency share rates factor
        first has answers small modulated timed dr_is power_is index_is sendable seals reply acks
        arrives parsed fresh received id gateway stored =
      let w = answer_payload v item tx_info dr tx_power (delay_seconds seconds) in
      let p = answer_packet w in
      let way =
        transport border.aes cipher (encryption_key border)
          (encryption_key-length border cipher sixteen) border.cmac mac (signing_key border) p
          sendable in
      let wire_is : wire ≡ way.wire = ok_injective (sym seals ∙ way.seals) in
      let got_is : got ≡ way.packet =
        ok_injective (sym parsed ∙ ap MeshPacket.from_slice wire_is ∙ way.reads) in
      let (statuses, sent) =
        first_sent border pl.downlink_id item items tx_info p wire ack s has
          (packed border v item tx_info _ seconds dr tx_power s small answers modulated timed dr_is
            power_is)
          (plain_downlink w) seals some_frequency reply acks in
      let relayed = ap is_relay_context answers ∙ (context_of-relay_context v small).0 in
      let run =
        answered border pl item items tx_info s first has relayed ∙ Returns.>>=-ok _ _ s statuses in
      let rate =
        dr_to_modulation-modulation_to_dr border.conf.mappings parameters true rates factor dr_is in
      let arrived : MeshPacket = record {
        mhdr = p.mhdr;
        payload = Payload.downlink w;
        mic = way.packet.mic;
      } in
      let (c, dispatched) =
        fresh_packet relay false at_relay got arrived t (ap MeshPacket.from_slice arrives ∙ parsed)
          (rw (got_is, share.signing, share.cmac) way.validates) fresh
          (rw (got_is, share.encryption, share.aes) way.decrypts) in
      let t' : State F32 = record t { payload_cache = c } in
      (
        ap (λ x. x.0) run,
        (sent.0, sent.1, sent.2, ap (λ x. x.1.sent) run ∙ sent.3),
        ap (λ x. x.1.sent) dispatched
            ∙ relay_answers relay at_relay rx_info arrived w t' refl id received
            ∙ device_frame_sent relay w power _ context gateway_id t' (rw share.mappings index_is)
                (rw share.mappings rate) stored gateway,
      )
