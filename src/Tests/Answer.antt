-- ===== src/Tests/Answer.antt =====
-- A run of a downlink from a Border Gateway to a relay.
use chirpstack_gateway_mesh.Common.{
  ◌≡◌, refl, ◌++◌, true, false, List, ℕ, [], ◌∷◌, some, none, inl, arith,
}
use chirpstack_gateway_mesh.Common.Int.{ℤ, pos, negsuc}
use chirpstack_gateway_mesh.Common.Bytes.{bytes4}
use chirpstack_gateway_mesh.Common.Result.{ok, err, IsSettled, no_response}
use chirpstack_gateway_mesh.Cache
use chirpstack_gateway_mesh.Cache.PayloadCache.{payload_cache_eq, from_packet}
use chirpstack_gateway_mesh.Packets.MeshPacket
use chirpstack_gateway_mesh.Packets.MeshPacket.{MeshPacket, Payload, IsSendable, seal}
use chirpstack_gateway_mesh.Packets.Mhdr
use chirpstack_gateway_mesh.Packets.PayloadType
use chirpstack_gateway_mesh.Packets.Freq
use chirpstack_gateway_mesh.Packets.UplinkPayload.{UplinkPayload}
use chirpstack_gateway_mesh.Packets.DownlinkPayload
use chirpstack_gateway_mesh.Packets.DownlinkPayload.{DownlinkPayload}
use chirpstack_gateway_mesh.Packets.DownlinkMetadata
use chirpstack_gateway_mesh.Helpers.Mapping
use chirpstack_gateway_mesh.Helpers.TxPower
use chirpstack_gateway_mesh.Helpers.Ack.{tx_ack_to_err}
use chirpstack_gateway_mesh.Gw
use chirpstack_gateway_mesh.Runtime.{State, Env, Output, downlink_frame, ◌>>=◌}
use chirpstack_gateway_mesh.Mesh.Counters.{insert}
use chirpstack_gateway_mesh.Mesh.Proxy.{relay_context}
use chirpstack_gateway_mesh.Mesh.Downlink.{
  handle_downlink, packet_of, delay_of, context_of, relay_downlink_lora_packet,
}
use chirpstack_gateway_mesh.Mesh.Handle.{start, handle_mesh}
use chirpstack_gateway_mesh.Mesh.Send.{signing_key, encryption_key}
use chirpstack_gateway_mesh.Mesh.Forward.{SentOne}
use chirpstack_gateway_mesh.Mesh.Deliver.{SharesMesh}
use chirpstack_gateway_mesh.Mesh.Answer.{
  answer_packet, answer_payload, device_frame, downlink_delivered,
}
use chirpstack_gateway_mesh.Mesh.Statuses.{Packed, Tries, relay_downlink_lora_packet-Tries}
use native.Mathlib.Decide.{ℕ_discrete}
use chirpstack_gateway_mesh.Tests.Data.{
  env, toy_aes-IsBlockCipher, toy_cmac-IsMac, other_relay, mappings,
}
use chirpstack_gateway_mesh.Tests.Delivery.{border, parameters, rx_info}

relay-SharesMesh : SharesMesh border env
unfolding encryption_key signing_key
relay-SharesMesh = record {
  aes = refl;
  cmac = refl;
  encryption = refl;
  signing = refl;
  mappings = refl;
}

-- The uplink that is answered.
abbrev heard : UplinkPayload
heard = record {
  metadata = record { uplink_id = 1; dr = 0; channel = 0; rssi = negsuc 59; snr = pos 3 };
  relay_id = other_relay;
  phy_payload = 64 ∷ 9 ∷ [];
}

abbrev tx_info : Gw.DownlinkTxInfo
tx_info = record {
  frequency = 868100000;
  power = pos 14;
  modulation = some (record { parameters = some parameters });
  timing = some (record { parameters = some (Gw.TimingParameters.delay (some (pos 1))) });
  context = 1 ∷ 2 ∷ 3 ∷ 5 ∷ 6 ∷ 7 ∷ 8 ∷ 0 ∷ 1 ∷ [];
}

abbrev item : Gw.DownlinkFrameItem
item = record { phy_payload = 96 ∷ 1 ∷ []; tx_info = some tx_info }

abbrev answer : Gw.DownlinkFrame
answer = record { downlink_id = 77; items = item ∷ item ∷ []; gateway_id = [] }

abbrev made : DownlinkPayload
made = answer_payload heard item tx_info 0 1 1

abbrev wire : List ℕ
wire = 232 ∷ 0 ∷ 16 ∷ 132 ∷ 118 ∷ 40 ∷ 16 ∷ 5 ∷ 6 ∷ 7 ∷ 8 ∷ 96 ∷ 1 ∷ 7 ∷ 7 ∷ 7 ∷ 7 ∷ []

abbrev got : MeshPacket
got = record {
  mhdr = record { payload_type = PayloadType.PayloadType.downlink; hop_count = 1 };
  payload = Payload.downlink made;
  mic = some (bytes4 7 7 7 7);
}

abbrev arriving : Gw.UplinkFrame ℤ
arriving = record { phy_payload = wire; tx_info = none; rx_info = some rx_info }

abbrev ack : Gw.DownlinkTxAck
ack = record { gateway_id = []; downlink_id = 0; items = Gw.TxAckStatus.ack_ok ∷ [] }

abbrev at_border : State ℤ
at_border = start

-- The relay has stored the context of the uplink.
abbrev at_relay : State ℤ
at_relay = record start { uplink_context = insert (λ j. none) 1 (42 ∷ []) }

answers : tx_info.context ≡ relay_context heard
unfolding relay_context
answers = refl

rate_found : Mapping.modulation_to_dr mappings (record { parameters = some parameters }) ≡ ok 0
unfolding Mapping.modulation_to_dr ℕ_discrete
rate_found = refl

power_found : TxPower.tx_power_to_index mappings (pos 14) ≡ ok 1
unfolding TxPower.tx_power_to_index
power_found = refl

power_back : TxPower.index_to_tx_power mappings 1 ≡ ok (pos 14)
unfolding TxPower.index_to_tx_power
power_back = refl

made-InRange : DownlinkMetadata.InRange made.metadata
made-InRange = record {
  uplink_id = omega arith;
  dr = omega arith;
  tx_power = omega arith;
  delay_min = omega arith;
  delay_max = omega arith;
  frequency = inl (omega arith);
}

made-IsSendable : IsSendable (answer_packet made)
made-IsSendable = record {
  hops_min = omega arith;
  hops_max = omega arith;
  fits = (refl, made-InRange);
}

made_sealed :
    seal border.aes border.cmac (encryption_key border) (signing_key border) (answer_packet made)
    ≡ ok wire
unfolding seal MeshPacket.encrypt MeshPacket.encrypt_payload MeshPacket.set_mic
    MeshPacket.calculate_mic MeshPacket.mic_bytes MeshPacket.to_vec MeshPacket.payload_to_vec
    Mhdr.to_byte DownlinkPayload.to_vec DownlinkMetadata.to_bytes Freq.encode_freq
    PayloadType.to_byte
made_sealed = refl

wire_parsed : MeshPacket.from_slice wire ≡ ok got
unfolding MeshPacket.from_slice Mhdr.from_byte PayloadType.from_byte MeshPacket.decode_payload
    DownlinkPayload.from_slice DownlinkMetadata.from_bytes Freq.decode_freq
wire_parsed = refl

got_fresh : Cache.contains payload_cache_eq at_relay.payload_cache.deque (from_packet got) ≡ false
unfolding start Cache.new Cache.contains
got_fresh = refl

acked : tx_ack_to_err ack ≡ ok tt
unfolding tx_ack_to_err
acked = refl

downlink_delivered_example :
    ((handle_downlink border answer at_border).0
      ≡ ok (record {
        gateway_id = [];
        downlink_id = 77;
        items = Gw.TxAckStatus.ack_ok ∷ Gw.TxAckStatus.ignored ∷ [];
      }))
    × SentOne border wire at_border (handle_downlink border answer at_border).1
    × ((handle_mesh env false arriving at_relay).1.sent
        ≡ at_relay.sent
          ++ downlink_frame (
              device_frame env made
                (env.random at_relay.reads)
                (pos 14)
                (record {
                  parameters = some (
                      Gw.ModulationParameters.lora (record {
                        bandwidth = 125000;
                        spreading_factor = 7;
                        code_rate = Gw.CodeRate.cr45;
                        polarization_inversion = true;
                      }));
                })
                (42 ∷ [])
                (1 ∷ 2 ∷ 3 ∷ 4 ∷ 5 ∷ 6 ∷ 7 ∷ 8 ∷ []))
            ∷ [])
downlink_delivered_example =
    downlink_delivered border env answer item (item ∷ []) tx_info heard parameters (some (pos 1)) 0
      1 (pos 14) wire ack arriving rx_info got (42 ∷ []) (1 ∷ 2 ∷ 3 ∷ 4 ∷ 5 ∷ 6 ∷ 7 ∷ 8 ∷ [])
      at_border at_relay toy_aes-IsBlockCipher toy_cmac-IsMac refl (omega arith) relay-SharesMesh
      (omega arith) (omega arith) refl refl answers (omega arith) refl refl rate_found power_found
      power_back made-IsSendable made_sealed (λ frame. refl) acked refl wire_parsed got_fresh refl
      refl refl refl

-- A Concentratord that fails on the first frame.
abbrev flaky : Env ℤ
flaky = record border {
  mesh_reply = λ sent frame. elim sent [ [] ↦ err no_response | o ∷ os ↦ ok ack ];
}

flaky_settled :
    (sent : List (Output ℤ)) (frame : Gw.DownlinkFrame) → IsSettled (flaky.mesh_reply sent frame)
flaky_settled [] frame = tt
flaky_settled (o ∷ os) frame = tt

item_packed : (s : State ℤ) → packet_of flaky item tx_info s ≡ (ok got, s)
unfolding packet_of delay_of context_of Mapping.modulation_to_dr TxPower.tx_power_to_index
    MeshPacket.set_mic MeshPacket.calculate_mic MeshPacket.mic_bytes MeshPacket.payload_to_vec
    Mhdr.to_byte DownlinkPayload.to_vec DownlinkMetadata.to_bytes Freq.encode_freq
    PayloadType.to_byte ℕ_discrete ◌>>=◌
item_packed s = refl

got_written : MeshPacket.to_vec got ≡ ok wire
unfolding MeshPacket.to_vec MeshPacket.payload_to_vec Mhdr.to_byte DownlinkPayload.to_vec
    DownlinkMetadata.to_bytes Freq.encode_freq PayloadType.to_byte
got_written = refl

item-Packed : Packed flaky 77 item
item-Packed = record {
  tx_info = tx_info;
  has = refl;
  packet = got;
  packs = item_packed;
  wire = wire;
  writes = got_written;
}

relay_downlink_lora_packet-Tries_example :
    (statuses : List Gw.TxAckStatus) × ((relay_downlink_lora_packet flaky answer at_border).0
      ≡ ok (record { gateway_id = []; downlink_id = 77; items = statuses }))
    × Tries flaky 77
        (item ∷ item ∷ [])
        at_border.sent
        statuses
        (relay_downlink_lora_packet flaky answer at_border).1.sent
relay_downlink_lora_packet-Tries_example =
    relay_downlink_lora_packet-Tries flaky answer at_border flaky_settled (omega arith)
      (item-Packed, (item-Packed, tt))
