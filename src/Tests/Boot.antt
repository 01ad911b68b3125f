-- ===== src/Tests/Boot.antt =====
-- Runs of the start-up of a relay and of a Border Gateway.
use chirpstack_gateway_mesh.Common.{
  ℕ, zero, suc, ◌<◌, ◌≡◌, refl, ap, ◌∙◌, true, false, List, [], ◌∷◌, ◌++◌, map, none, some,
  get_elem?, replicate, arith,
}
use chirpstack_gateway_mesh.Common.Int.{ℤ}
use chirpstack_gateway_mesh.Common.Bytes.{bytes4}
use chirpstack_gateway_mesh.Common.Result.{ok, err, already_set, Error}
use chirpstack_gateway_mesh.Config.{
  Configuration, default_configuration, default_mesh, default_events,
}
use chirpstack_gateway_mesh.Gw
use chirpstack_gateway_mesh.Runtime.{Env, State}
use chirpstack_gateway_mesh.Setup.Main.{System, logging_setup, until_logged, until_logged_total}
use chirpstack_gateway_mesh.Proxy.{handle_command}
use chirpstack_gateway_mesh.Mesh.Handle.{start, handle_uplink}
use chirpstack_gateway_mesh.Setup.{
  Task, event_set_loop, no_commands, collect, gateway_id_of, relay_id_of,
}
use chirpstack_gateway_mesh.Setup.Run.{
  event_loop, command_loop, report_loop, Start, nothing_set, Outside, run,
}
use chirpstack_gateway_mesh.Setup.Ready.{
  Beats, late, named, early, backend_starts, proxy_starts, run_relay, run_border,
}
use chirpstack_gateway_mesh.Setup.Early.{early_uplink_lost, early_gateway_id}
use chirpstack_gateway_mesh.Tests.Data.{env, uplink_frame}

abbrev gateway_id : List ℕ
gateway_id = 1 ∷ 2 ∷ 3 ∷ 4 ∷ 5 ∷ 6 ∷ 7 ∷ 8 ∷ []

abbrev out : Outside
out = record {
  parse = λ k. none;
  hex_decode = λ text. ok gateway_id;
  answer = ok "0102030405060708";
  mesh_answer = ok "0102030405060708";
  new_signals = ok tt;
  next_signal = ok tt;
}

abbrev border_conf : Configuration
border_conf = record default_configuration { mesh = record default_mesh { border_gateway = true } }

gateway_id_found : gateway_id_of out.hex_decode "0102030405060708" ≡ ok gateway_id
unfolding gateway_id_of
gateway_id_found = refl

relay_id_found : relay_id_of out.hex_decode "" "0102030405060708" ≡ ok (bytes4 5 6 7 8)
unfolding relay_id_of
relay_id_found = refl

no_entries : collect out.parse no_commands [] ≡ ok no_commands
unfolding collect
no_entries = refl

abbrev relay_conf : Configuration
relay_conf = record default_configuration {
  events = record default_events {
    sets = record { events = 7 ∷ []; interval = record { secs = 60; nanos = 0 } } ∷ [];
  };
}

run_relay_example :
    (beats : List Task) × Beats relay_conf.events.heartbeat_interval beats
    × (run out relay_conf nothing_set ≡ (
      ok tt,
      record {
        event_chan = none;
        cmd_chan = some tt;
        mesh_cmd_chan = some tt;
        gateway_id = some gateway_id;
        relay_id = some (bytes4 5 6 7 8);
        event_commands = some no_commands;
        commands = some no_commands;
        starts =
            backend_starts relay_conf gateway_id (bytes4 5 6 7 8)
            ++ map
                (λ t. late gateway_id (bytes4 5 6 7 8) (report_loop t))
                (beats ++ event_set_loop (7 ∷ []) (record { secs = 60; nanos = 0 }) ∷ []);
      },
    ))
run_relay_example =
    run_relay out relay_conf "0102030405060708" "0102030405060708" gateway_id (bytes4 5 6 7 8) refl
      refl gateway_id_found relay_id_found no_commands no_commands refl no_entries no_entries

run_border_example : run out border_conf nothing_set ≡ (
  ok tt,
  record {
    event_chan = some tt;
    cmd_chan = some tt;
    mesh_cmd_chan = some tt;
    gateway_id = some gateway_id;
    relay_id = some (bytes4 5 6 7 8);
    event_commands = none;
    commands = none;
    starts = proxy_starts border_conf ++ backend_starts border_conf gateway_id (bytes4 5 6 7 8);
  },
)
run_border_example =
    run_border out border_conf "0102030405060708" "0102030405060708" gateway_id (bytes4 5 6 7 8)
      refl refl gateway_id_found relay_id_found refl

abbrev uplinks : Start
uplinks = named gateway_id (event_loop false false)

uplinks_third : get_elem? (run out default_configuration nothing_set).1.starts 2 ≡ some uplinks
uplinks_third =
    ap (λ x. get_elem? x.1.starts 2)
      (run_relay out default_configuration "0102030405060708" "0102030405060708" gateway_id
        (bytes4 5 6 7 8) refl refl gateway_id_found relay_id_found no_commands no_commands refl
        no_entries no_entries).2

-- The relay's surroundings before its identifier is set.
abbrev unset : Env ℤ
unset = record env { relay_id = none; gateway_id = none }

abbrev begin : State ℤ
begin = start

early_uplink_lost_example :
    (uplinks.spawned ≡ event_loop false false)
    × ((handle_uplink unset false uplink_frame begin).1.sent ≡ begin.sent)
early_uplink_lost_example =
    early_uplink_lost out default_configuration "0102030405060708" "0102030405060708" gateway_id
      (bytes4 5 6 7 8) no_commands no_commands unset uplinks uplink_frame begin refl refl
      gateway_id_found relay_id_found refl no_entries no_entries uplinks_third refl

commands_third : get_elem? (run out border_conf nothing_set).1.starts 2 ≡ some (early command_loop)
commands_third =
    ap (λ x. get_elem? x.1.starts 2)
      (run_border out border_conf "0102030405060708" "0102030405060708" gateway_id (bytes4 5 6 7 8)
        refl refl gateway_id_found relay_id_found refl)

early_gateway_id_example :
    (command_loop ≡ command_loop)
    × (handle_command unset Gw.Command.get_gateway_id begin ≡ (ok (replicate 8 0), begin))
early_gateway_id_example =
    early_gateway_id out border_conf "0102030405060708" "0102030405060708" gateway_id
      (bytes4 5 6 7 8) no_commands no_commands unset (early command_loop) begin refl refl
      gateway_id_found relay_id_found refl commands_third refl

-- The first setup of logging fails.
abbrev sys : System
sys = record {
  read_to_string = λ file_name. ok [];
  vars = [];
  from_toml = λ text. ok default_configuration;
  render_template = λ conf. ok tt;
  parse_level = λ level. ok tt;
  syslog_unix = λ n. err already_set;
  set_boxed_logger = λ n. ok tt;
  init_with_level = λ n. elim n [ zero ↦ err already_set | suc n ↦ ok tt ];
}

first_fails : (i : ℕ) → i < 1 → (e : Error) × (logging_setup sys false i ≡ err e)
unfolding logging_setup
first_fails zero lt = (already_set, refl)
first_fails (suc i) lt = absurd (omega arith)

second_succeeds : logging_setup sys false 1 ≡ ok tt
unfolding logging_setup
second_succeeds = refl

until_logged_total_example :
    until_logged sys 5 false (record { config = none; statics = nothing_set; tries = 0 })
    ≡ (ok tt, record { config = none; statics = nothing_set; tries = 2 })
until_logged_total_example =
    until_logged_total sys 1 5 false (record { config = none; statics = nothing_set; tries = 0 })
      (omega arith)
      (λ i lt.
        let (e, fails) = first_fails i lt in
        (e, ap (logging_setup sys false) (omega arith) ∙ fails))
      second_succeeds
