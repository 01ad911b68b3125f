-- ===== src/Tests/Delivery.antt =====
-- A run of an uplink from a relay to a Border Gateway.
use chirpstack_gateway_mesh.Common.{
  ◌≡◌, refl, ◌++◌, true, false, List, ℕ, [], ◌∷◌, some, none, arith,
}
use chirpstack_gateway_mesh.Common.Int.{ℤ, pos, negsuc}
use chirpstack_gateway_mesh.Common.Bytes.{bytes4}
use chirpstack_gateway_mesh.Common.Result.{ok}
use chirpstack_gateway_mesh.Cache
use chirpstack_gateway_mesh.Cache.PayloadCache.{payload_cache_eq, from_packet}
use chirpstack_gateway_mesh.Packets.MeshPacket
use chirpstack_gateway_mesh.Packets.MeshPacket.{MeshPacket, Payload, IsSendable, seal}
use chirpstack_gateway_mesh.Packets.Mhdr
use chirpstack_gateway_mesh.Packets.PayloadType
use chirpstack_gateway_mesh.Packets.UplinkPayload
use chirpstack_gateway_mesh.Packets.UplinkPayload.{UplinkPayload}
use chirpstack_gateway_mesh.Packets.UplinkMetadata
use chirpstack_gateway_mesh.Helpers.Mapping
use chirpstack_gateway_mesh.Gw
use chirpstack_gateway_mesh.Gw.{UplinkFrame}
use chirpstack_gateway_mesh.Runtime.{State, Env, proxy_event}
use chirpstack_gateway_mesh.Mesh.Counters.{next_uplink_id}
use chirpstack_gateway_mesh.Mesh.Handle.{start, handle_mesh}
use chirpstack_gateway_mesh.Mesh.Send.{signing_key, encryption_key}
use chirpstack_gateway_mesh.Mesh.Relay.{relay_uplink_lora_packet}
use chirpstack_gateway_mesh.Mesh.Forward.{SentOne}
use chirpstack_gateway_mesh.Mesh.Deliver.{
  SharesMesh, relayed_payload, relayed_packet, unwrapped, uplink_delivered,
}
use native.Mathlib.Decide.{ℕ_discrete}
use chirpstack_gateway_mesh.Tests.Data.{
  env, toy_aes-IsBlockCipher, toy_cmac-IsMac, other_relay, mappings,
}

abbrev pub border : Env ℤ
border = record env {
  conf = record (env.conf) { mesh = record (env.conf.mesh) { border_gateway = true } };
}

pub border-SharesMesh : SharesMesh env border
unfolding encryption_key signing_key
border-SharesMesh = record {
  aes = refl;
  cmac = refl;
  encryption = refl;
  signing = refl;
  mappings = refl;
}

abbrev pub parameters : Gw.ModulationParameters
parameters = Gw.ModulationParameters.lora (record {
  bandwidth = 125000;
  spreading_factor = 7;
  code_rate = Gw.CodeRate.cr45;
  polarization_inversion = false;
})

abbrev pub rx_info : Gw.UplinkRxInfo ℤ
rx_info = record {
  gateway_id = [];
  uplink_id = 5;
  rssi = negsuc 59;
  snr = pos 3;
  crc_status = Gw.CrcStatus.crc_ok;
  context = 1 ∷ [];
  hop_count = none;
  relay_id = none;
}

abbrev tx_info : Gw.UplinkTxInfo
tx_info = record {
  frequency = 868100000;
  modulation = some (record { parameters = some parameters });
}

abbrev heard : UplinkFrame ℤ
heard = record { phy_payload = 64 ∷ 9 ∷ []; tx_info = some tx_info; rx_info = some rx_info }

abbrev wire : List ℕ
wire = 224 ∷ 0 ∷ 16 ∷ 60 ∷ 3 ∷ 0 ∷ 5 ∷ 6 ∷ 7 ∷ 8 ∷ 64 ∷ 9 ∷ 7 ∷ 7 ∷ 7 ∷ 7 ∷ []

abbrev arriving : UplinkFrame ℤ
arriving = record { phy_payload = wire; tx_info = some tx_info; rx_info = some rx_info }

abbrev begin : State ℤ
begin = start

abbrev made : UplinkPayload
made = relayed_payload env heard rx_info other_relay 0 0 begin

abbrev got : MeshPacket
got = record {
  mhdr = record { payload_type = PayloadType.PayloadType.uplink; hop_count = 1 };
  payload = Payload.uplink (record {
    metadata = record { uplink_id = 1; dr = 0; channel = 0; rssi = negsuc 59; snr = pos 3 };
    relay_id = other_relay;
    phy_payload = 64 ∷ 9 ∷ [];
  });
  mic = some (bytes4 7 7 7 7);
}

rate_found : Mapping.modulation_to_dr mappings (record { parameters = some parameters }) ≡ ok 0
unfolding Mapping.modulation_to_dr ℕ_discrete
rate_found = refl

channel_found : Mapping.frequency_to_chan mappings 868100000 ≡ ok 0
unfolding Mapping.frequency_to_chan
channel_found = refl

made-InRange : UplinkMetadata.InRange made.metadata
unfolding next_uplink_id start
made-InRange = record {
  uplink_id = omega arith;
  dr = omega arith;
  rssi_max = ground arith;
  rssi_min = ground arith;
  snr_min = ground arith;
  snr_max = ground arith;
}

made-IsSendable : IsSendable (relayed_packet made)
made-IsSendable = record {
  hops_min = omega arith;
  hops_max = omega arith;
  fits = (refl, made-InRange, omega arith);
}

made_sealed :
    seal env.aes env.cmac (encryption_key env) (signing_key env) (relayed_packet made) ≡ ok wire
unfolding seal MeshPacket.encrypt MeshPacket.encrypt_payload MeshPacket.set_mic
    MeshPacket.calculate_mic MeshPacket.mic_bytes MeshPacket.to_vec MeshPacket.payload_to_vec
    Mhdr.to_byte UplinkPayload.to_vec UplinkMetadata.to_bytes next_uplink_id start
    PayloadType.to_byte
made_sealed = refl

wire_parsed : MeshPacket.from_slice wire ≡ ok got
unfolding MeshPacket.from_slice Mhdr.from_byte PayloadType.from_byte MeshPacket.decode_payload
    UplinkPayload.from_slice UplinkMetadata.from_bytes
wire_parsed = refl

got_fresh : Cache.contains payload_cache_eq begin.payload_cache.deque (from_packet got) ≡ false
unfolding start Cache.new Cache.contains
got_fresh = refl

uplink_delivered_example :
    SentOne env wire begin (relay_uplink_lora_packet env heard begin).1
    × ((handle_mesh border true arriving begin).1.sent
        ≡ begin.sent
          ++ proxy_event (
              Gw.Event.uplink_frame (
                unwrapped border made
                  (1 ∷ 2 ∷ 3 ∷ 4 ∷ 5 ∷ 6 ∷ 7 ∷ 8 ∷ [])
                  1
                  rx_info
                  868100000
                  (record { parameters = some parameters })))
            ∷ [])
uplink_delivered_example =
    uplink_delivered env border heard arriving rx_info rx_info tx_info tx_info parameters
      other_relay (1 ∷ 2 ∷ 3 ∷ 4 ∷ 5 ∷ 6 ∷ 7 ∷ 8 ∷ []) 0 0 wire got begin begin
      toy_aes-IsBlockCipher toy_cmac-IsMac refl (omega arith) border-SharesMesh (omega arith)
      (omega arith) (omega arith) refl refl refl rate_found channel_found refl made-IsSendable
      made_sealed refl wire_parsed got_fresh refl refl refl refl
