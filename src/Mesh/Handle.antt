-- ===== src/Mesh/Handle.antt =====
-- The entry points for uplinks, mesh packets and mesh commands.
use chirpstack_gateway_mesh.Common.{◌%◌, Bool, true, false, List, [], ◌∷◌, none, some}
use chirpstack_gateway_mesh.Common.Bytes.{Bytes4}
use chirpstack_gateway_mesh.Common.Time.{SystemTime}
use chirpstack_gateway_mesh.Packets.PayloadType.{PayloadType}
use chirpstack_gateway_mesh.Packets.Command.{Command}
use chirpstack_gateway_mesh.Packets.MeshPacket
use chirpstack_gateway_mesh.Packets.MeshPacket.{MeshPacket, Payload}
use chirpstack_gateway_mesh.Cache
use chirpstack_gateway_mesh.Cache.PayloadCache.{payload_cache_eq, from_packet}
use chirpstack_gateway_mesh.Gw.{UplinkFrame, MeshCommand, MeshCommandItem}
use chirpstack_gateway_mesh.Runtime.{State, Env, M, ◌>>=◌, pure, lift}
use chirpstack_gateway_mesh.Backend.{mesh, random}
use chirpstack_gateway_mesh.Events.{now}
use chirpstack_gateway_mesh.Mesh.Send.{signing_key, encryption_key, mesh_frame_of}
use chirpstack_gateway_mesh.Mesh.Proxy.{
  proxy_uplink_lora_packet, proxy_uplink_mesh_packet, proxy_event_mesh_packet,
}
use chirpstack_gateway_mesh.Mesh.Relay.{relay_uplink_lora_packet, relay_mesh_packet}

-- The statics at the start.
unfoldable pub start : {F32 : Type 0} → State F32
unfolding Cache.new
start = record {
  mesh_channel = 0;
  uplink_id = 0;
  uplink_context = λ id. none;
  payload_cache = Cache.new 64;
  last_timestamp = none;
  sent = [];
  reads = 0;
}

-- The commands of a message that are set; their type is cut to a byte.
unfoldable pub commands_of : List MeshCommandItem → List Command
commands_of [] = []
commands_of (item ∷ items) = elim item.command [
  | none ↦ commands_of items
  | some c ↦ Command.proprietary (c.0 % 256) c.1 ∷ commands_of items
]

-- `PAYLOAD_CACHE.lock().unwrap().add((&packet).into())`.
unfoldable pub add_to_cache : {F32 : Type 0} → MeshPacket → M (State F32) Bool
unfolding Cache.add payload_cache_eq from_packet
add_to_cache packet s =
    let (added, cache) = Cache.add payload_cache_eq s.payload_cache (from_packet packet) in
    pure added (record s { payload_cache = cache })

module _ {F32 : Type 0} (env : Env F32) where
  unfoldable pub handle_uplink : Bool → UplinkFrame F32 → M (State F32) (Unit {0})
  unfolding proxy_uplink_lora_packet relay_uplink_lora_packet
  handle_uplink true pl = proxy_uplink_lora_packet env pl
  handle_uplink false pl = relay_uplink_lora_packet env pl

  unfoldable pub proxy_packet :
      UplinkFrame F32 → MeshPacket → PayloadType → M (State F32) (Unit {0})
  unfolding proxy_uplink_mesh_packet proxy_event_mesh_packet
  proxy_packet pl packet PayloadType.uplink = proxy_uplink_mesh_packet env pl packet
  proxy_packet pl packet PayloadType.event = proxy_event_mesh_packet env pl packet
  proxy_packet pl packet PayloadType.downlink = pure tt
  proxy_packet pl packet PayloadType.command = pure tt

  unfoldable pub dispatch : Bool → UplinkFrame F32 → MeshPacket → M (State F32) (Unit {0})
  unfolding proxy_packet relay_mesh_packet
  dispatch true pl packet = proxy_packet pl packet packet.mhdr.payload_type
  dispatch false pl packet = relay_mesh_packet env pl packet

  -- A packet that is already in the cache is dropped.
  unfoldable pub handle_fresh :
      Bool → UplinkFrame F32 → MeshPacket → Bool → M (State F32) (Unit {0})
  unfolding MeshPacket.decrypt encryption_key dispatch
  handle_fresh border_gateway pl packet false = pure tt
  handle_fresh border_gateway pl packet true = do
    packet ← lift (MeshPacket.decrypt env.aes (encryption_key env) packet)
    dispatch border_gateway pl packet

  -- A packet with a wrong code is dropped.
  unfoldable pub handle_valid :
      Bool → UplinkFrame F32 → MeshPacket → Bool → M (State F32) (Unit {0})
  unfolding add_to_cache handle_fresh
  handle_valid border_gateway pl packet false = pure tt
  handle_valid border_gateway pl packet true = do
    added ← add_to_cache packet
    handle_fresh border_gateway pl packet added

  unfoldable pub handle_mesh : Bool → UplinkFrame F32 → M (State F32) (Unit {0})
  unfolding MeshPacket.from_slice MeshPacket.validate_mic signing_key handle_valid
  handle_mesh border_gateway pl = do
    packet ← lift (MeshPacket.from_slice pl.phy_payload)
    valid ← lift (MeshPacket.validate_mic env.cmac (signing_key env) packet)
    handle_valid border_gateway pl packet valid

  unfoldable pub command_packet : SystemTime → Bytes4 → List Command → MeshPacket
  command_packet timestamp relay_id commands = record {
    mhdr = record { payload_type = PayloadType.command; hop_count = 1 };
    payload =
        Payload.command
          (record { timestamp = timestamp; relay_id = relay_id; commands = commands });
    mic = none;
  }

  unfoldable pub send_mesh_command : MeshCommand → M (State F32) (Unit {0})
  unfolding now commands_of command_packet MeshPacket.encrypt MeshPacket.set_mic encryption_key
      signing_key random mesh_frame_of mesh
  send_mesh_command pl = do
    timestamp ← now env
    relay_id ← lift (env.hex_decode4 pl.relay_id)
    packet ← lift (
        MeshPacket.encrypt env.aes (encryption_key env)
          (command_packet timestamp relay_id (commands_of pl.commands)))
    packet ← lift (MeshPacket.set_mic env.cmac (signing_key env) packet)
    downlink_id ← random env
    frame ← mesh_frame_of env downlink_id packet
    mesh env frame
