-- ===== src/Events.antt =====
-- `src/events.rs`: events are sent as an encrypted mesh packet.
use chirpstack_gateway_mesh.Common.{ℕ, ◌+◌, List, [], ◌∷◌, none}
use chirpstack_gateway_mesh.Common.Time.{SystemTime}
use chirpstack_gateway_mesh.Common.Bytes.{Bytes4}
use chirpstack_gateway_mesh.Packets.PayloadType
use chirpstack_gateway_mesh.Packets.Event.{Event}
use chirpstack_gateway_mesh.Packets.MeshPacket
use chirpstack_gateway_mesh.Packets.MeshPacket.{MeshPacket, Payload}
use chirpstack_gateway_mesh.Runtime.{State, Env, M, ◌>>=◌, pure, lift}
use chirpstack_gateway_mesh.Backend.{mesh, get_relay_id, random}
use chirpstack_gateway_mesh.Mesh.Send.{signing_key, encryption_key, mesh_frame_of}
use chirpstack_gateway_mesh.Common.Result
use chirpstack_gateway_mesh.Common.Result.{
  Result, err, map_ok, ok_or, commands_not_set, command_not_configured, command_is_empty,
}

module _ {F32 : Type 0} (env : Env F32) where
  -- `SystemTime::now()`.
  unfoldable pub now : M (State F32) SystemTime
  now = λ s. pure (env.now s.reads) (record s { reads = s.reads + 1 })

  unfoldable pub event_packet : SystemTime → Bytes4 → List Event → MeshPacket
  event_packet timestamp relay_id events = record {
    mhdr = record { payload_type = PayloadType.event; hop_count = 1 };
    payload =
        Payload.event (record { timestamp = timestamp; relay_id = relay_id; events = events });
    mic = none;
  }

  unfoldable pub send_events : List Event → M (State F32) (Unit {0})
  unfolding now get_relay_id event_packet MeshPacket.encrypt MeshPacket.set_mic encryption_key
      signing_key random mesh_frame_of mesh
  send_events events = do
    timestamp ← now
    relay_id ← get_relay_id env
    packet ←
        lift
          (MeshPacket.encrypt env.aes (encryption_key env) (event_packet timestamp relay_id events))
    packet ← lift (MeshPacket.set_mic env.cmac (signing_key env) packet)
    downlink_id ← random env
    pl ← mesh_frame_of env downlink_id packet
    mesh env pl

  unfoldable pub report_heartbeat : M (State F32) (Unit {0})
  unfolding send_events
  report_heartbeat = send_events (Event.heartbeat (record { relay_path = [] }) ∷ [])

  -- The program of a type, from which its first argument names the executable.
  unfoldable pub event_of : ℕ → List (List ℕ) → Result Event
  event_of typ [] = err command_is_empty
  event_of typ (arg ∷ args) = map_ok (Event.proprietary typ) (env.output (arg ∷ args))

  unfoldable pub get_event : ℕ → Result Event
  unfolding event_of
  get_event typ =
      Result.◌>>=◌ (ok_or env.event_commands commands_not_set)
        (λ commands. Result.◌>>=◌ (ok_or (commands typ) command_not_configured) (event_of typ))

  -- `for typ in typs { events.push(get_event(*typ).await?) }`.
  unfoldable pub get_events : List ℕ → M (State F32) (List Event)
  unfolding get_event
  get_events [] = pure []
  get_events (typ ∷ typs) = do
    event ← lift (get_event typ)
    events ← get_events typs
    pure (event ∷ events)

  unfoldable pub report_events : List ℕ → M (State F32) (Unit {0})
  unfolding get_events send_events
  report_events typs = do events ← get_events typs; send_events events
