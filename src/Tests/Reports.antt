-- ===== src/Tests/Reports.antt =====
-- Runs of events and commands between a relay and a Border Gateway.
use chirpstack_gateway_mesh.Common.{
  ℕ, ◌≡◌, refl, ◌++◌, true, false, List, [], ◌∷◌, some, none, arith,
}
use chirpstack_gateway_mesh.Common.Cursor
use chirpstack_gateway_mesh.Common.Int.{ℤ}
use chirpstack_gateway_mesh.Common.Bytes.{bytes4, to_list}
use chirpstack_gateway_mesh.Common.Result.{ok}
use chirpstack_gateway_mesh.Cache
use chirpstack_gateway_mesh.Cache.PayloadCache.{PayloadCache, payload_cache_eq, from_packet}
use chirpstack_gateway_mesh.Packets.Event
use chirpstack_gateway_mesh.Packets.Event.{Event}
use chirpstack_gateway_mesh.Packets.Command
use chirpstack_gateway_mesh.Packets.Crypt.{encrypt_events_commands}
use chirpstack_gateway_mesh.Packets.EventPayload
use chirpstack_gateway_mesh.Packets.CommandPayload
use chirpstack_gateway_mesh.Packets.Items
use chirpstack_gateway_mesh.Packets.Tlv
use chirpstack_gateway_mesh.Packets.Mhdr
use chirpstack_gateway_mesh.Packets.PayloadType
use chirpstack_gateway_mesh.Packets.MeshPacket
use chirpstack_gateway_mesh.Packets.MeshPacket.{MeshPacket, Payload, IsSendable, seal}
use chirpstack_gateway_mesh.Gw
use chirpstack_gateway_mesh.Gw.{UplinkFrame}
use chirpstack_gateway_mesh.Runtime.{State, Env, proxy_event}
use chirpstack_gateway_mesh.Events.{event_packet, send_events}
use chirpstack_gateway_mesh.Mesh.Handle.{
  start, handle_mesh, command_packet, commands_of, send_mesh_command,
}
use chirpstack_gateway_mesh.Commands.{execute_commands}
use chirpstack_gateway_mesh.Mesh.Send.{signing_key, encryption_key}
use chirpstack_gateway_mesh.Mesh.Forward.{SentOne}
use chirpstack_gateway_mesh.Mesh.Deliver.{SharesMesh}
use chirpstack_gateway_mesh.Mesh.Report.{shown, events_delivered}
use chirpstack_gateway_mesh.Mesh.Order.{asked, ordered, responded, commands_delivered}
use chirpstack_gateway_mesh.Mesh.Seconds.{same_second_lost}
use chirpstack_gateway_mesh.Tests.Data
use chirpstack_gateway_mesh.Tests.Data.{
  env, toy_aes-IsBlockCipher, toy_cmac-IsMac, other_relay, noon,
}
use chirpstack_gateway_mesh.Tests.Delivery.{border, border-SharesMesh, rx_info}

abbrev begin : State ℤ
begin = start

abbrev events : List Event
events = Event.proprietary 7 (1 ∷ 2 ∷ []) ∷ []

abbrev others : List Event
others = Event.proprietary 8 (3 ∷ []) ∷ []

abbrev wire : List ℕ
wire = 240 ∷ 101 ∷ 83 ∷ 241 ∷ 0 ∷ 5 ∷ 6 ∷ 7 ∷ 8 ∷ 93 ∷ 88 ∷ 91 ∷ 88 ∷ 7 ∷ 7 ∷ 7 ∷ 7 ∷ []

abbrev wire' : List ℕ
wire' = 240 ∷ 101 ∷ 83 ∷ 241 ∷ 0 ∷ 5 ∷ 6 ∷ 7 ∷ 8 ∷ 82 ∷ 91 ∷ 89 ∷ 7 ∷ 7 ∷ 7 ∷ 7 ∷ []

-- An event packet as it is read, with its events still encrypted.
abbrev pending : List ℕ → MeshPacket
pending c = record {
  mhdr = record { payload_type = PayloadType.PayloadType.event; hop_count = 1 };
  payload = Payload.event (record {
    timestamp = EventPayload.wire_time 1700000000;
    relay_id = other_relay;
    events = Event.encrypted c ∷ [];
  });
  mic = some (bytes4 7 7 7 7);
}

abbrev arriving : List ℕ → UplinkFrame ℤ
arriving bytes = record { phy_payload = bytes; tx_info = none; rx_info = some rx_info }

event_sealed :
    seal env.aes env.cmac
      (encryption_key env)
      (signing_key env)
      (event_packet env noon other_relay events)
    ≡ ok wire
unfolding seal MeshPacket.encrypt MeshPacket.encrypt_payload MeshPacket.set_mic
    MeshPacket.calculate_mic MeshPacket.mic_bytes MeshPacket.to_vec MeshPacket.payload_to_vec
    Mhdr.to_byte EventPayload.to_vec EventPayload.encrypt event_packet encrypt_events_commands
    PayloadType.to_byte Items.encode_items Event.encode Tlv.write_tlv
event_sealed = refl

others_sealed :
    seal env.aes env.cmac
      (encryption_key env)
      (signing_key env)
      (event_packet env noon other_relay others)
    ≡ ok wire'
unfolding seal MeshPacket.encrypt MeshPacket.encrypt_payload MeshPacket.set_mic
    MeshPacket.calculate_mic MeshPacket.mic_bytes MeshPacket.to_vec MeshPacket.payload_to_vec
    Mhdr.to_byte EventPayload.to_vec EventPayload.encrypt event_packet encrypt_events_commands
    PayloadType.to_byte Items.encode_items Event.encode Tlv.write_tlv
others_sealed = refl

event_parsed : MeshPacket.from_slice wire ≡ ok (pending (93 ∷ 88 ∷ 91 ∷ 88 ∷ []))
unfolding MeshPacket.from_slice Mhdr.from_byte PayloadType.from_byte MeshPacket.decode_payload
    EventPayload.from_slice Cursor.read_exact Cursor.read_to_end
event_parsed = refl

others_parsed : MeshPacket.from_slice wire' ≡ ok (pending (82 ∷ 91 ∷ 89 ∷ []))
unfolding MeshPacket.from_slice Mhdr.from_byte PayloadType.from_byte MeshPacket.decode_payload
    EventPayload.from_slice Cursor.read_exact Cursor.read_to_end
others_parsed = refl

event_fresh :
    Cache.contains payload_cache_eq begin.payload_cache.deque
      (from_packet (pending (93 ∷ 88 ∷ 91 ∷ 88 ∷ [])))
    ≡ false
unfolding start Cache.new Cache.contains
event_fresh = refl

events-IsSendable : IsSendable (event_packet env noon other_relay events)
unfolding event_packet
events-IsSendable = record {
  hops_min = omega arith;
  hops_max = omega arith;
  fits = (refl, refl, ((omega arith), tt));
}

others-IsSendable : IsSendable (event_packet env noon other_relay others)
unfolding event_packet
others-IsSendable = record {
  hops_min = omega arith;
  hops_max = omega arith;
  fits = (refl, refl, ((omega arith), tt));
}

events_delivered_example :
    SentOne env wire begin (send_events env events begin).1
    × ((handle_mesh border true (arriving wire) begin).1.sent
        ≡ begin.sent
          ++ proxy_event (
              Gw.Event.mesh (record {
                gateway_id = border.hex_encode (1 ∷ 2 ∷ 3 ∷ 4 ∷ 5 ∷ 6 ∷ 7 ∷ 8 ∷ []);
                relay_id = border.hex_encode (to_list other_relay);
                time = EventPayload.wire_time 1700000000;
                events = shown border events;
              }))
            ∷ [])
events_delivered_example =
    events_delivered env border events other_relay (1 ∷ 2 ∷ 3 ∷ 4 ∷ 5 ∷ 6 ∷ 7 ∷ 8 ∷ []) wire
      (arriving wire) (pending (93 ∷ 88 ∷ 91 ∷ 88 ∷ [])) begin begin toy_aes-IsBlockCipher
      toy_cmac-IsMac refl (omega arith) border-SharesMesh refl ((omega arith), tt) events-IsSendable
      event_sealed refl event_parsed event_fresh refl refl

same_second_lost_example :
    let t = (handle_mesh border true (arriving wire) begin).1 in
    handle_mesh border true (arriving wire') t ≡ (ok tt, t)
same_second_lost_example =
    same_second_lost env border toy_aes-IsBlockCipher toy_cmac-IsMac refl border-SharesMesh events
      others other_relay wire wire' (pending (93 ∷ 88 ∷ 91 ∷ 88 ∷ [])) (pending (82 ∷ 91 ∷ 89 ∷ []))
      true (arriving wire) (arriving wire') begin begin begin refl events-IsSendable
      others-IsSendable event_sealed others_sealed refl refl event_parsed others_parsed

-- The relay that the commands name.
abbrev commanded : Env ℤ
commanded = record env { relay_id = some Data.relay }

commanded-SharesMesh : SharesMesh border commanded
unfolding encryption_key signing_key
commanded-SharesMesh = record {
  aes = refl;
  cmac = refl;
  encryption = refl;
  signing = refl;
  mappings = refl;
}

abbrev pairs : List (ℕ × List ℕ)
pairs = (9, 4 ∷ []) ∷ []

abbrev command : Gw.MeshCommand
command = record { relay_id = []; commands = record { command = some (9, 4 ∷ []) } ∷ [] }

abbrev command_wire : List ℕ
command_wire = 248 ∷ 101 ∷ 83 ∷ 241 ∷ 0 ∷ 1 ∷ 2 ∷ 3 ∷ 4 ∷ 83 ∷ 91 ∷ 94 ∷ 7 ∷ 7 ∷ 7 ∷ 7 ∷ []

abbrev command_pending : MeshPacket
command_pending = record {
  mhdr = record { payload_type = PayloadType.PayloadType.command; hop_count = 1 };
  payload = Payload.command (record {
    timestamp = CommandPayload.wire_time 1700000000;
    relay_id = Data.relay;
    commands = Command.Command.encrypted (83 ∷ 91 ∷ 94 ∷ []) ∷ [];
  });
  mic = some (bytes4 7 7 7 7);
}

command_sealed :
    seal border.aes border.cmac
      (encryption_key border)
      (signing_key border)
      (command_packet border noon Data.relay (asked pairs))
    ≡ ok command_wire
unfolding seal MeshPacket.encrypt MeshPacket.encrypt_payload MeshPacket.set_mic
    MeshPacket.calculate_mic MeshPacket.mic_bytes MeshPacket.to_vec MeshPacket.payload_to_vec
    Mhdr.to_byte CommandPayload.to_vec CommandPayload.encrypt command_packet commands_of
    encrypt_events_commands PayloadType.to_byte Items.encode_items Command.encode Tlv.write_tlv
command_sealed = refl

command_parsed : MeshPacket.from_slice command_wire ≡ ok command_pending
unfolding MeshPacket.from_slice Mhdr.from_byte PayloadType.from_byte MeshPacket.decode_payload
    CommandPayload.from_slice Cursor.read_exact Cursor.read_to_end
command_parsed = refl

command_fresh :
    Cache.contains payload_cache_eq begin.payload_cache.deque (from_packet command_pending) ≡ false
unfolding start Cache.new Cache.contains
command_fresh = refl

command-IsSendable : IsSendable (command_packet border noon Data.relay (asked pairs))
unfolding command_packet commands_of
command-IsSendable = record {
  hops_min = omega arith;
  hops_max = omega arith;
  fits = (refl, refl, ((omega arith), tt));
}

commands_delivered_example :
    SentOne border command_wire begin (send_mesh_command border command begin).1
    × ((c : Cache.Cache PayloadCache) × ((handle_mesh commanded false
            (arriving command_wire)
            begin).1
          ≡ responded commanded (
              execute_commands commanded
                (ordered border commanded noon Data.relay pairs)
                (record begin { payload_cache = c }))))
commands_delivered_example =
    commands_delivered border commanded command pairs Data.relay command_wire
      (arriving command_wire) rx_info command_pending begin begin toy_aes-IsBlockCipher
      toy_cmac-IsMac refl (omega arith) commanded-SharesMesh refl refl command-IsSendable
      command_sealed refl refl command_parsed command_fresh refl
