-- ===== src/Setup/Run.antt =====
-- Start-up: `run` of `src/cmd/root.rs` with the setups that it calls. The answers of the two
-- Concentratord processes to the first command and the signals are parameters.
use Prim.Native.String.{String}
use chirpstack_gateway_mesh.Common.{ℕ, Bool, true, false, List, [], ◌∷◌, ◌++◌, Option, none, some}
use chirpstack_gateway_mesh.Common.Bytes.{Bytes4}
use chirpstack_gateway_mesh.Common.Result.{Result, ok, err, already_set}
use chirpstack_gateway_mesh.Config.{Configuration}
use chirpstack_gateway_mesh.Runtime.{M, ◌>>=◌, ◌>>◌, pure, lift}
use chirpstack_gateway_mesh.Setup.{
  Table, Task, gateway_id_of, relay_id_of, events_setup, commands_setup,
}

-- The threads and the tasks that are spawned.
pub data Spawned : Type 0 where
  -- The threads of the sockets, by their URLs.
  command_thread event_thread proxy_event_thread proxy_command_thread : String → Spawned
  -- The loops of `backend` and `proxy`.
  event_loop : (border_gateway ignore_direct_uplinks : Bool) → Spawned
  mesh_event_loop : (border_gateway : Bool) → Spawned
  command_loop : Spawned
  -- The loops of `events`.
  report_loop : Task → Spawned

-- What has been spawned, with the identifiers that were set at that time.
pub record Start : Type 0 where
  pub spawned : Spawned
  pub gateway_id : Option (List ℕ)
  pub relay_id : Option Bytes4

-- The `OnceLock`s of the modules (of channels, whether they are set), and all that was spawned.
pub record Statics : Type 0 where
  pub event_chan : Option (Unit {0})
  pub cmd_chan : Option (Unit {0})
  pub mesh_cmd_chan : Option (Unit {0})
  pub gateway_id : Option (List ℕ)
  pub relay_id : Option Bytes4
  pub event_commands : Option Table
  pub commands : Option Table
  pub starts : List Start

abbrev pub nothing_set : Statics
nothing_set = record {
  event_chan = none;
  cmd_chan = none;
  mesh_cmd_chan = none;
  gateway_id = none;
  relay_id = none;
  event_commands = none;
  commands = none;
  starts = [];
}

-- `OnceLock::set`.
abbrev pub once :
    {A : Type 0} → Option A → A → (A → Statics) → Statics → Result (Unit {0}) × Statics
once none a set s = (ok tt, set a)
once (some old) a set s = (err already_set, s)

unfoldable pub set_event_chan : M Statics (Unit {0})
set_event_chan s = once s.event_chan tt (λ u. record s { event_chan = some u }) s

unfoldable pub set_cmd_chan : M Statics (Unit {0})
set_cmd_chan s = once s.cmd_chan tt (λ u. record s { cmd_chan = some u }) s

unfoldable pub set_mesh_cmd_chan : M Statics (Unit {0})
set_mesh_cmd_chan s = once s.mesh_cmd_chan tt (λ u. record s { mesh_cmd_chan = some u }) s

unfoldable pub set_gateway_id : List ℕ → M Statics (Unit {0})
set_gateway_id id s = once s.gateway_id id (λ i. record s { gateway_id = some i }) s

unfoldable pub set_relay_id : Bytes4 → M Statics (Unit {0})
set_relay_id id s = once s.relay_id id (λ i. record s { relay_id = some i }) s

-- `thread::spawn` and `tokio::spawn`.
unfoldable pub spawn : Spawned → M Statics (Unit {0})
spawn x s =
    let start : Start = record { spawned = x; gateway_id = s.gateway_id; relay_id = s.relay_id } in
    pure tt (record s { starts = s.starts ++ start ∷ [] })

unfoldable pub spawn_all : List Task → M Statics (Unit {0})
unfolding spawn
spawn_all [] = pure tt
spawn_all (t ∷ ts) = do spawn (report_loop t); spawn_all ts

-- `str::parse::<u8>`, `hex::decode`, and the gateway IDs in the answers of the Concentratord
-- process and of that of the mesh.
pub record Outside : Type 0 where
  pub parse : String → Option ℕ
  pub hex_decode : String → Result (List ℕ)
  pub answer : Result String
  pub mesh_answer : Result String
  -- `Signals::new`, and the wait for the next signal: `diverged` if none ever arrives.
  pub new_signals : Result (Unit {0})
  pub next_signal : Result (Unit {0})

unfoldable pub proxy_setup : Configuration → M Statics (Unit {0})
unfolding spawn set_event_chan
proxy_setup conf = elim conf.mesh.border_gateway [
  | false ↦ pure tt
  | true ↦
      spawn (proxy_event_thread conf.mesh.proxy_api.event_bind)
      >> set_event_chan
      >> spawn (proxy_command_thread conf.mesh.proxy_api.command_bind)
      >> spawn command_loop
]

module _ (out : Outside) where
  unfoldable pub setup_concentratord : Configuration → M Statics (Unit {0})
  unfolding spawn gateway_id_of set_gateway_id set_cmd_chan
  setup_concentratord conf = do
    spawn (command_thread conf.backend.concentratord.command_url)
    answer ← lift out.answer
    id ← lift (gateway_id_of out.hex_decode answer)
    set_gateway_id id
    set_cmd_chan
    spawn (event_thread conf.backend.concentratord.event_url)
    spawn (event_loop conf.mesh.border_gateway conf.mesh.border_gateway_ignore_direct_uplinks)

  unfoldable pub setup_mesh_concentratord : Configuration → M Statics (Unit {0})
  unfolding spawn relay_id_of set_relay_id set_mesh_cmd_chan
  setup_mesh_concentratord conf = do
    spawn (command_thread conf.backend.mesh_concentratord.command_url)
    answer ← lift out.mesh_answer
    id ← lift (relay_id_of out.hex_decode conf.mesh.relay_id answer)
    set_relay_id id
    set_mesh_cmd_chan
    spawn (event_thread conf.backend.mesh_concentratord.event_url)
    spawn (mesh_event_loop conf.mesh.border_gateway)

  unfoldable pub backend_setup : Configuration → M Statics (Unit {0})
  unfolding setup_concentratord setup_mesh_concentratord
  backend_setup conf = do setup_concentratord conf; setup_mesh_concentratord conf

  -- `setup` of `events` and of `commands`, on their statics.
  unfoldable pub setup_events : Configuration → M Statics (Unit {0})
  unfolding events_setup spawn_all
  setup_events conf =
      (λ s.
        let (r, cell) = events_setup out.parse conf s.event_commands in
        (r, record s { event_commands = cell }))
      >>= λ tasks. spawn_all tasks

  unfoldable pub setup_commands : Configuration → M Statics (Unit {0})
  unfolding commands_setup
  setup_commands conf s =
      let (r, cell) = commands_setup out.parse conf s.commands in (r, record s { commands = cell })

  unfoldable pub run : Configuration → M Statics (Unit {0})
  unfolding proxy_setup backend_setup setup_events setup_commands
  run conf = do
    proxy_setup conf
    backend_setup conf
    setup_events conf
    setup_commands conf
    lift out.new_signals
    lift out.next_signal
