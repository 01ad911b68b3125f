-- ===== src/Tests/Network.antt =====
-- Runs of the theorems on the program as a whole.
use chirpstack_gateway_mesh.Common.{All, [], arith, false, none, refl, some, true, ◌∷◌, ◌≡◌, ◌≤◌}
use chirpstack_gateway_mesh.Common.Int.{ℤ, pos, negsuc}
use chirpstack_gateway_mesh.Common.Result.{ok, IsSettled}
use chirpstack_gateway_mesh.Cache
use chirpstack_gateway_mesh.Cache.PayloadCache.{payload_cache_eq, from_packet}
use chirpstack_gateway_mesh.Packets.MeshPacket
use chirpstack_gateway_mesh.Packets.MeshPacket.{MeshPacket, IsSendable, IsTransported, arrival}
use chirpstack_gateway_mesh.Packets.Mhdr
use chirpstack_gateway_mesh.Packets.PayloadType
use chirpstack_gateway_mesh.Packets.UplinkPayload
use chirpstack_gateway_mesh.Packets.UplinkMetadata
use chirpstack_gateway_mesh.Gw
use chirpstack_gateway_mesh.Gw.{UplinkFrame}
use chirpstack_gateway_mesh.Runtime.{State}
use chirpstack_gateway_mesh.Mesh.Handle.{start, handle_mesh}
use chirpstack_gateway_mesh.Mesh.Send.{signing_key, encryption_key}
use chirpstack_gateway_mesh.Mesh.Hops.{relay_id_of, passed_on}
use chirpstack_gateway_mesh.Mesh.Forward.{SentOne, onward, handle_mesh_forwards}
use chirpstack_gateway_mesh.Handlers.{
  handle_event_msg, handle_mesh_event_msg, event_loop, mesh_event_loop,
}
use chirpstack_gateway_mesh.Node.Invariant.{
  IsValid, at_start, after, mesh_event, heartbeat, Reaches-IsValid,
}
use chirpstack_gateway_mesh.Node.Wire.{IsSentReceivable, Reaches-IsSentReceivable}
use chirpstack_gateway_mesh.Node.Settled.Senders.{IsResponsive}
use chirpstack_gateway_mesh.Node.Settled.Entries.{
  handlers_return, loops_go_on, all_handled, replies_for,
}
use chirpstack_gateway_mesh.Events.{report_heartbeat, report_events}
use chirpstack_gateway_mesh.Proxy.{handle_command, command_loop}
use chirpstack_gateway_mesh.Node.Roles.{on_air, proxied, border_gateway_quiet, relay_silent}
use chirpstack_gateway_mesh.Tests.Data.{
  env, toy_aes-IsBlockCipher, toy_cmac, toy_cmac-IsMac, other_relay, uplink_packet, some_uplink,
}

-- An uplink of another relay after two hops.
abbrev on_its_way : MeshPacket
on_its_way = record uplink_packet {
  mhdr = record { payload_type = PayloadType.uplink; hop_count = 2 };
}

abbrev rx_info : Gw.UplinkRxInfo ℤ
rx_info = record {
  gateway_id = [];
  uplink_id = 5;
  rssi = negsuc 59;
  snr = pos 3;
  crc_status = Gw.CrcStatus.crc_ok;
  context = 1 ∷ [];
  hop_count = none;
  relay_id = none;
}

abbrev on_its_way_frame : UplinkFrame ℤ
on_its_way_frame = record {
  phy_payload = 225 ∷ 18 ∷ 193 ∷ 80 ∷ 59 ∷ 0 ∷ 1 ∷ 2 ∷ 3 ∷ 4 ∷ 64 ∷ 9 ∷ 7 ∷ 7 ∷ 7 ∷ 7 ∷ [];
  tx_info =
      some (record { frequency = 868100000; modulation = some (record { parameters = none }) });
  rx_info = some rx_info;
}

abbrev begin : State ℤ
begin = start

abbrev next : MeshPacket
next = onward on_its_way (passed_on env other_relay rx_info on_its_way.payload)

on_its_way_parsed : MeshPacket.from_slice on_its_way_frame.phy_payload ≡ ok on_its_way
unfolding MeshPacket.from_slice Mhdr.from_byte PayloadType.from_byte MeshPacket.decode_payload
    UplinkPayload.from_slice UplinkMetadata.from_bytes
on_its_way_parsed = refl

on_its_way_valid : MeshPacket.validate_mic toy_cmac (signing_key env) on_its_way ≡ ok true
unfolding MeshPacket.validate_mic MeshPacket.calculate_mic MeshPacket.mic_bytes
    MeshPacket.payload_to_vec Mhdr.to_byte UplinkPayload.to_vec UplinkMetadata.to_bytes
on_its_way_valid = refl

on_its_way_fresh :
    Cache.contains payload_cache_eq begin.payload_cache.deque (from_packet on_its_way) ≡ false
unfolding start Cache.new Cache.contains
on_its_way_fresh = refl

on_its_way_decrypted : MeshPacket.decrypt env.aes (encryption_key env) on_its_way ≡ ok on_its_way
unfolding MeshPacket.decrypt MeshPacket.decrypt_payload
on_its_way_decrypted = refl

another_relay : MeshPacket.mic_eq (relay_id_of on_its_way.payload) other_relay ≡ false
unfolding MeshPacket.mic_eq relay_id_of
another_relay = refl

hops_left : next.mhdr.hop_count ≤ 8
hops_left = omega arith

some_uplink-InRange : UplinkMetadata.InRange some_uplink.metadata
some_uplink-InRange = record {
  uplink_id = omega arith;
  dr = omega arith;
  rssi_max = ground arith;
  rssi_min = ground arith;
  snr_min = ground arith;
  snr_max = ground arith;
}

next-IsSendable : IsSendable next
next-IsSendable = record {
  hops_min = omega arith;
  hops_max = omega arith;
  fits = (refl, some_uplink-InRange, omega arith);
}

handle_mesh_forwards_example :
    (t : IsTransported env.aes env.cmac
      (encryption_key env)
      (signing_key env)
      next
      (arrival next.payload))
    × SentOne env t.wire begin (handle_mesh env false on_its_way_frame begin).1
handle_mesh_forwards_example =
    handle_mesh_forwards env on_its_way_frame on_its_way on_its_way other_relay rx_info begin
      toy_aes-IsBlockCipher toy_cmac-IsMac refl (omega arith) refl refl on_its_way_parsed
      on_its_way_valid on_its_way_fresh on_its_way_decrypted another_relay hops_left next-IsSendable

abbrev mesh_uplink : Gw.Event ℤ
mesh_uplink = Gw.Event.uplink_frame on_its_way_frame

Reaches-IsValid_example : IsValid env (handle_mesh_event_msg env false mesh_uplink begin).1
Reaches-IsValid_example = Reaches-IsValid env (after at_start (mesh_event mesh_uplink begin))

border_gateway_quiet_example :
    (on_air (handle_event_msg env (λ b. true) true false mesh_uplink begin).1.sent
      ≡ on_air begin.sent)
    × (on_air (handle_mesh_event_msg env true mesh_uplink begin).1.sent ≡ on_air begin.sent)
border_gateway_quiet_example =
    border_gateway_quiet env (λ b. true) false mesh_uplink mesh_uplink begin

relay_silent_example :
    (proxied (handle_event_msg env (λ b. true) false false mesh_uplink begin).1.sent
      ≡ proxied begin.sent)
    × (proxied (handle_mesh_event_msg env false mesh_uplink begin).1.sent ≡ proxied begin.sent)
relay_silent_example = relay_silent env (λ b. true) false mesh_uplink mesh_uplink begin

env-IsResponsive : IsResponsive env
env-IsResponsive = record {
  mac = toy_cmac-IsMac;
  mesh = λ sent pl. tt;
  downlink = λ sent pl. tt;
  configuration = λ sent. tt;
  proxy = λ sent. tt;
  run = λ args value. tt;
  output = λ args. tt;
  hex = λ b. tt;
}

handlers_return_example :
    IsSettled (handle_event_msg env (λ b. true) false false mesh_uplink begin).0
    × IsSettled (handle_mesh_event_msg env false mesh_uplink begin).0
    × IsSettled (handle_command env Gw.Command.get_gateway_id begin).0
    × IsSettled (report_heartbeat env begin).0
    × IsSettled (report_events env (7 ∷ []) begin).0
handlers_return_example =
    handlers_return env env-IsResponsive (λ b. true) false false mesh_uplink
      Gw.Command.get_gateway_id (7 ∷ []) begin

loops_go_on_example :
    (event_loop env (λ b. true) false false (mesh_uplink ∷ mesh_uplink ∷ []) begin ≡ (
      ok tt,
      all_handled env env-IsResponsive
          (handle_event_msg env (λ b. true) false false)
          (mesh_uplink ∷ mesh_uplink ∷ [])
          begin,
    ))
    × (mesh_event_loop env false (mesh_uplink ∷ mesh_uplink ∷ []) begin ≡ (
      ok tt,
      all_handled env env-IsResponsive
          (handle_mesh_event_msg env false)
          (mesh_uplink ∷ mesh_uplink ∷ [])
          begin,
    ))
    × (command_loop env (Gw.Command.other_command ∷ Gw.Command.get_gateway_id ∷ []) begin ≡ (
      ok (
          replies_for env env-IsResponsive
            (Gw.Command.other_command ∷ Gw.Command.get_gateway_id ∷ [])
            begin),
      all_handled env env-IsResponsive
          (handle_command env)
          (Gw.Command.other_command ∷ Gw.Command.get_gateway_id ∷ [])
          begin,
    ))
loops_go_on_example =
    loops_go_on env env-IsResponsive (λ b. true) false false (mesh_uplink ∷ mesh_uplink ∷ [])
      (Gw.Command.other_command ∷ Gw.Command.get_gateway_id ∷ []) begin

Reaches-IsSentReceivable_example : All (IsSentReceivable env) (report_heartbeat env begin).1.sent
Reaches-IsSentReceivable_example = Reaches-IsSentReceivable env (after at_start (heartbeat begin))
