-- ===== src/Tests/Node.antt =====
-- Runs of the theorems on the handlers.
use chirpstack_gateway_mesh.Common.{Bool, List, ◌≡◌, ◌≢◌, ◌≤◌, refl, true, false, [], ◌∷◌, arith}
use chirpstack_gateway_mesh.Common.Int.{ℤ}
use chirpstack_gateway_mesh.Common.Result.{ok, err, timestamp_not_increased}
use chirpstack_gateway_mesh.Packets.MeshPacket
use chirpstack_gateway_mesh.Packets.Mhdr
use chirpstack_gateway_mesh.Packets.PayloadType
use chirpstack_gateway_mesh.Packets.UplinkPayload
use chirpstack_gateway_mesh.Packets.UplinkMetadata
use chirpstack_gateway_mesh.Gw
use chirpstack_gateway_mesh.Runtime.{State}
use chirpstack_gateway_mesh.Commands.{execute_commands, execute_commands_again}
use chirpstack_gateway_mesh.Handlers.{handle_event_msg, filters_without_effect}
use chirpstack_gateway_mesh.Mesh.Counters.{
  next_uplink_id, store_uplink_context, get_uplink_context, get_uplink_context-store_uplink_context,
}
use chirpstack_gateway_mesh.Mesh.Hops.{relay_id_of}
use chirpstack_gateway_mesh.Mesh.Handle.{start, handle_mesh}
use chirpstack_gateway_mesh.Mesh.Replay.{arrivals, handle_mesh_replay}
use chirpstack_gateway_mesh.Mesh.Limit.{handle_mesh_over_limit}
use chirpstack_gateway_mesh.Cache
use chirpstack_gateway_mesh.Cache.PayloadCache.{PayloadCache, payload_cache_eq, from_packet}
use chirpstack_gateway_mesh.Gw.{UplinkFrame}
use chirpstack_gateway_mesh.Mesh.Send.{signing_key, encryption_key}
use chirpstack_gateway_mesh.Tests.Data.{
  toy_cmac, env, other_relay, some_commands, uplink_packet, uplink_wire, uplink_frame,
}

abbrev begin : State ℤ
begin = start

wire_parsed : MeshPacket.from_slice uplink_wire ≡ ok uplink_packet
unfolding MeshPacket.from_slice Mhdr.from_byte PayloadType.from_byte MeshPacket.decode_payload
    UplinkPayload.from_slice UplinkMetadata.from_bytes
wire_parsed = refl

wire_valid : MeshPacket.validate_mic toy_cmac (signing_key env) uplink_packet ≡ ok true
unfolding MeshPacket.validate_mic MeshPacket.calculate_mic MeshPacket.mic_bytes
    MeshPacket.payload_to_vec Mhdr.to_byte UplinkPayload.to_vec UplinkMetadata.to_bytes
wire_valid = refl

packet_fresh :
    Cache.contains payload_cache_eq begin.payload_cache.deque (from_packet uplink_packet) ≡ false
unfolding start Cache.new Cache.contains
packet_fresh = refl

-- A frame that is no packet, and the packet itself, between the two arrivals.
abbrev between : List (Bool × UplinkFrame ℤ)
between = (false, record uplink_frame { phy_payload = [] }) ∷ (true, uplink_frame) ∷ []

handle_mesh_replay_example :
    let s' = arrivals env between (handle_mesh env false uplink_frame begin).1 in
    handle_mesh env true uplink_frame s' ≡ (ok tt, s')
unfolding start Cache.new
handle_mesh_replay_example =
    handle_mesh_replay env false true uplink_frame uplink_frame uplink_packet between begin
      (omega arith) (omega arith) (omega arith) refl wire_parsed wire_valid packet_fresh

not_this_relay : MeshPacket.mic_eq (relay_id_of uplink_packet.payload) other_relay ≡ false
unfolding MeshPacket.mic_eq relay_id_of
not_this_relay = refl

packet_decrypts : MeshPacket.decrypt env.aes (encryption_key env) uplink_packet ≡ ok uplink_packet
unfolding MeshPacket.decrypt MeshPacket.decrypt_payload
packet_decrypts = refl

handle_mesh_over_limit_example :
    (c : Cache.Cache PayloadCache) × ((handle_mesh env false uplink_frame begin).1
      ≡ record begin { payload_cache = c })
handle_mesh_over_limit_example =
    handle_mesh_over_limit env uplink_frame uplink_packet uplink_packet other_relay begin refl
      wire_parsed wire_valid packet_fresh packet_decrypts not_this_relay (omega arith) (omega arith)

execute_commands_again_example :
    let s' = (execute_commands env some_commands start).1 in
    execute_commands env some_commands s' ≡ (err timestamp_not_increased, s')
execute_commands_again_example = execute_commands_again env some_commands some_commands start refl

abbrev ids : State ℤ
ids = start

other_id : 9 ≢ next_uplink_id ids.uplink_id
unfolding next_uplink_id start
other_id e = absurd (cc e)

get_uplink_context-store_uplink_context_example :
    let id = next_uplink_id ids.uplink_id in
    let s' = (store_uplink_context (1 ∷ 2 ∷ []) ids).1 in
    ((store_uplink_context (1 ∷ 2 ∷ []) ids).0 ≡ ok id)
    × (id ≤ 4095)
    × ((get_uplink_context id s').0 ≡ ok (1 ∷ 2 ∷ []))
    × ((get_uplink_context 9 s').0 ≡ (get_uplink_context 9 ids).0)
get_uplink_context-store_uplink_context_example =
    get_uplink_context-store_uplink_context (1 ∷ 2 ∷ []) 9 ids other_id

filters_without_effect_example :
    handle_event_msg env (λ b. false) false false (Gw.Event.uplink_frame uplink_frame) start
    ≡ handle_event_msg env (λ b. true) false false (Gw.Event.uplink_frame uplink_frame) start
filters_without_effect_example =
    filters_without_effect env (λ b. false) (λ b. true) false false
      (Gw.Event.uplink_frame uplink_frame) start
