-- ===== src/Tests/Data.antt =====
-- The packets, the configuration and the surroundings of the runs. The cipher and the code are toys
-- of the right lengths.
use chirpstack_gateway_mesh.Common.{ℕ, refl, List, [], ◌∷◌, none, some, replicate, arith}
use chirpstack_gateway_mesh.Common.Int.{ℤ, pos, negsuc}
use chirpstack_gateway_mesh.Common.Bytes.{Bytes4, bytes4, IsBytes}
use chirpstack_gateway_mesh.Common.Result.{ok, err, spawn_error}
use chirpstack_gateway_mesh.Common.Time.{SystemTime}
use chirpstack_gateway_mesh.Aes128.{Aes128Key, BlockCipher, IsBlockCipher}
use chirpstack_gateway_mesh.Packets.PayloadType
use chirpstack_gateway_mesh.Packets.Event.{Event}
use chirpstack_gateway_mesh.Packets.Command.{Command}
use chirpstack_gateway_mesh.Packets.UplinkPayload.{UplinkPayload}
use chirpstack_gateway_mesh.Packets.EventPayload.{EventPayload}
use chirpstack_gateway_mesh.Packets.CommandPayload.{CommandPayload}
use chirpstack_gateway_mesh.Packets.MeshPacket.{MeshPacket, Payload, Mac, IsMac}
use chirpstack_gateway_mesh.Config
use chirpstack_gateway_mesh.Config.{Mappings, default_configuration, default_mesh}
use chirpstack_gateway_mesh.Gw
use chirpstack_gateway_mesh.Gw.{UplinkFrame}
use chirpstack_gateway_mesh.Runtime.{Env}

abbrev pub toy_aes : BlockCipher
toy_aes key block = replicate 16 90

toy_aes-IsBytes : (key block : List ℕ) → IsBytes (toy_aes key block)
toy_aes-IsBytes key block = ground arith

pub toy_aes-IsBlockCipher : IsBlockCipher toy_aes
toy_aes-IsBlockCipher key block sixteen whole = (refl, toy_aes-IsBytes key block)

abbrev pub toy_cmac : Mac
toy_cmac key message = replicate 16 7

pub toy_cmac-IsMac : IsMac toy_cmac
toy_cmac-IsMac key message = (refl, ground arith)

abbrev pub some_key : Aes128Key
some_key = record { bytes = replicate 16 1 }

abbrev pub relay : Bytes4
relay = bytes4 1 2 3 4

abbrev pub other_relay : Bytes4
other_relay = bytes4 5 6 7 8

abbrev pub noon : SystemTime
noon = record { secs = pos 1700000000; nanos = 5 }

abbrev pub some_events : EventPayload
some_events = record {
  timestamp = noon;
  relay_id = relay;
  events = Event.proprietary 7 (1 ∷ 2 ∷ []) ∷ [];
}

abbrev pub event_packet : MeshPacket
event_packet = record {
  mhdr = record { payload_type = PayloadType.event; hop_count = 2 };
  payload = Payload.event some_events;
  mic = none;
}

abbrev pub some_commands : CommandPayload
some_commands = record {
  timestamp = noon;
  relay_id = relay;
  commands = Command.proprietary 7 (1 ∷ []) ∷ [];
}

abbrev pub some_uplink : UplinkPayload
some_uplink = record {
  metadata = record { uplink_id = 300; dr = 1; rssi = negsuc 79; snr = negsuc 4; channel = 0 };
  relay_id = relay;
  phy_payload = 64 ∷ 9 ∷ [];
}

abbrev pub uplink_packet : MeshPacket
uplink_packet = record {
  mhdr = record { payload_type = PayloadType.uplink; hop_count = 8 };
  payload = Payload.uplink some_uplink;
  mic = some (bytes4 7 7 7 7);
}

-- The bytes of the packet.
abbrev pub uplink_wire : List ℕ
uplink_wire = 231 ∷ 18 ∷ 193 ∷ 80 ∷ 59 ∷ 0 ∷ 1 ∷ 2 ∷ 3 ∷ 4 ∷ 64 ∷ 9 ∷ 7 ∷ 7 ∷ 7 ∷ 7 ∷ []

abbrev pub sf7 : Config.DataRate
sf7 = record {
  modulation = Config.Modulation.lora;
  spreading_factor = 7;
  bandwidth = 125000;
  code_rate = some Config.CodeRate.cr45;
  bitrate = 0;
}

abbrev pub mappings : Mappings
mappings = record {
  channels = 868100000 ∷ 868300000 ∷ [];
  tx_power = pos 10 ∷ pos 14 ∷ pos 27 ∷ [];
  data_rates = sf7 ∷ [];
}

abbrev pub env : Env ℤ
env = record {
  conf = record default_configuration {
    mesh = record default_mesh {
      root_key = some_key;
      signing_key = some_key;
      frequencies = 868500000 ∷ 869500000 ∷ [];
      max_hop_count = 8;
    };
    mappings = mappings;
  };
  aes = toy_aes;
  cmac = toy_cmac;
  random = λ n. n;
  now = λ n. noon;
  relay_id = some other_relay;
  gateway_id = some (1 ∷ 2 ∷ 3 ∷ 4 ∷ 5 ∷ 6 ∷ 7 ∷ 8 ∷ []);
  mesh_reply = λ sent pl.
      ok (record { gateway_id = []; downlink_id = 0; items = Gw.TxAckStatus.ack_ok ∷ [] });
  downlink_reply = λ sent pl.
      ok (record { gateway_id = []; downlink_id = 0; items = Gw.TxAckStatus.ack_ok ∷ [] });
  proxy_reply = λ sent. ok tt;
  commands = none;
  run = λ args value. err spawn_error;
  configuration_reply = λ sent. ok tt;
  event_commands = some (λ t. some ((9 ∷ []) ∷ []));
  output = λ args. ok (1 ∷ 2 ∷ []);
  encode_tx_ack = λ ack. 1 ∷ [];
  encode_gateway_id = λ id. id;
  hex_encode = λ b. b;
  hex_decode4 = λ b. ok relay;
  f32_as_i8 = λ x. x;
  f32_of_i8 = λ x. x;
}

abbrev pub uplink_frame : UplinkFrame ℤ
uplink_frame = record {
  phy_payload = uplink_wire;
  tx_info = some (record { frequency = 868100000; modulation = none });
  rx_info = some (record {
    gateway_id = [];
    uplink_id = 5;
    rssi = negsuc 59;
    snr = pos 3;
    crc_status = Gw.CrcStatus.crc_ok;
    context = 1 ∷ [];
    hop_count = none;
    relay_id = none;
  });
}
