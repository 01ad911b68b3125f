-- ===== src/Setup/Ready.antt =====
-- What holds after the start-up, and while it is going on.
use Prim.Native.String.{String}
use chirpstack_gateway_mesh.Common.{
  ℕ, ◌+◌, ◌<◌, if◌then◌else◌, Bool-cases, inl, inr, arith, ◌≡◌, refl, sym, ◌∙◌, ap, ap₂, true,
  false, List, [], ◌∷◌, ◌++◌, map, Option, none, some, append_assoc, append-nil,
}
use chirpstack_gateway_mesh.Common.Bytes.{Bytes4}
use chirpstack_gateway_mesh.Common.Result
use chirpstack_gateway_mesh.Common.Result.{Result, ok, err, panicked, diverged}
use chirpstack_gateway_mesh.Config
use chirpstack_gateway_mesh.Config.{Configuration, Duration, EventsSet}
use chirpstack_gateway_mesh.Runtime.{◌>>=◌, ◌>>◌, pure, lift}
use chirpstack_gateway_mesh.Runtime.Returns.{>>=-step}
use chirpstack_gateway_mesh.Setup.{
  Table, Task, heartbeat_loop, event_set_loop, is_zero, set_tasks, no_commands, tasks, collect,
  gateway_id_of, relay_id_of, events_setup, commands_setup,
}
use chirpstack_gateway_mesh.Setup.Run.{
  Spawned, command_thread, event_thread, proxy_event_thread, proxy_command_thread, event_loop,
  mesh_event_loop, command_loop, report_loop, Start, Statics, nothing_set, Outside, spawn,
  spawn_all, set_event_chan, set_cmd_chan, set_mesh_cmd_chan, set_gateway_id, set_relay_id,
  proxy_setup, setup_concentratord, setup_mesh_concentratord, backend_setup, setup_events,
  setup_commands, run,
}

-- Spawned before the identifiers are set, after the gateway ID is, and after both are.
abbrev pub early : Spawned → Start
early x = record { spawned = x; gateway_id = none; relay_id = none }

abbrev pub named : List ℕ → Spawned → Start
named id x = record { spawned = x; gateway_id = some id; relay_id = none }

abbrev pub late : List ℕ → Bytes4 → Spawned → Start
late id relay_id x = record { spawned = x; gateway_id = some id; relay_id = some relay_id }

-- The starts of the two Concentratord backends.
abbrev pub backend_starts : Configuration → List ℕ → Bytes4 → List Start
backend_starts conf id relay_id =
    early (command_thread conf.backend.concentratord.command_url)
    ∷ named id (event_thread conf.backend.concentratord.event_url)
    ∷ named id (event_loop conf.mesh.border_gateway conf.mesh.border_gateway_ignore_direct_uplinks)
    ∷ named id (command_thread conf.backend.mesh_concentratord.command_url)
    ∷ late id relay_id (event_thread conf.backend.mesh_concentratord.event_url)
    ∷ late id relay_id (mesh_event_loop conf.mesh.border_gateway)
    ∷ []

-- The starts of the proxy API.
abbrev pub proxy_starts : Configuration → List Start
proxy_starts conf =
    early (proxy_event_thread conf.mesh.proxy_api.event_bind)
    ∷ early (proxy_command_thread conf.mesh.proxy_api.command_bind)
    ∷ early command_loop
    ∷ []

-- The loops of the heartbeat with this interval: none if it is zero, else one.
pub data Beats (d : Duration) : List Task → Type 0 where
  no_beat : d.secs ≡ 0 → d.nanos ≡ 0 → Beats d []
  one_loop : 0 < d.secs + d.nanos → Beats d (heartbeat_loop d ∷ [])

set_tasks-map :
    (sets : List EventsSet)
    → set_tasks sets ≡ map (λ (set : EventsSet). event_set_loop set.events set.interval) sets
unfolding set_tasks
set_tasks-map [] = refl
set_tasks-map (set ∷ sets) =
    ap (λ l. event_set_loop set.events set.interval ∷ l) (set_tasks-map sets)

heartbeat_loops :
    (d : Duration)
    → (beats : List Task) × Beats d beats
      × ((if is_zero d then [] else heartbeat_loop d ∷ []) ≡ beats)
unfolding is_zero
heartbeat_loops d = elim (Bool-cases (is_zero d)) [
  | inl zero ↦ ([], no_beat (ground (arith, zero)) (ground (arith, zero)), rw zero refl)
  | inr beats ↦ (heartbeat_loop d ∷ [], one_loop (ground (arith, beats)), rw beats refl)
]

tasks-Beats :
    (c : Config.Events)
    → (beats : List Task) × Beats c.heartbeat_interval beats
      × (tasks c
          ≡ beats ++ map (λ (set : EventsSet). event_set_loop set.events set.interval) c.sets)
unfolding tasks
tasks-Beats c =
    let (beats, are, same) = heartbeat_loops c.heartbeat_interval in
    (beats, are, ap₂ (λ a b. a ++ b) same (set_tasks-map c.sets))

module _ (out : Outside) (conf : Configuration) (answer mesh_answer : String) (id : List ℕ)
    (relay_id : Bytes4) (answers : out.answer ≡ ok answer)
    (mesh_answers : out.mesh_answer ≡ ok mesh_answer)
    (id_is : gateway_id_of out.hex_decode answer ≡ ok id)
    (relay_id_is : relay_id_of out.hex_decode conf.mesh.relay_id mesh_answer ≡ ok relay_id) where
  -- The backends start where neither identifier is set, and set both.
  backend_ready :
      (event_chan : Option (Unit {0})) (event_commands commands : Option Table)
      (starts : List Start)
      → backend_setup out conf (record {
        event_chan = event_chan;
        cmd_chan = none;
        mesh_cmd_chan = none;
        gateway_id = none;
        relay_id = none;
        event_commands = event_commands;
        commands = commands;
        starts = starts;
      })
        ≡ (
          ok tt,
          record {
            event_chan = event_chan;
            cmd_chan = some tt;
            mesh_cmd_chan = some tt;
            gateway_id = some id;
            relay_id = some relay_id;
            event_commands = event_commands;
            commands = commands;
            starts = starts ++ backend_starts conf id relay_id;
          },
        )
  unfolding backend_setup setup_concentratord setup_mesh_concentratord spawn set_cmd_chan
      set_mesh_cmd_chan set_gateway_id set_relay_id pure lift ◌>>=◌
  backend_ready event_chan event_commands commands starts =
      rw (answers, id_is, mesh_answers, relay_id_is) (simp append_assoc)

  proxy_ready :
      conf.mesh.border_gateway ≡ true
      → proxy_setup conf nothing_set
        ≡ (ok tt, record nothing_set { event_chan = some tt; starts = proxy_starts conf })
  unfolding proxy_setup set_event_chan spawn pure ◌>>=◌
  proxy_ready border = rw border refl

  no_proxy : conf.mesh.border_gateway ≡ false → proxy_setup conf nothing_set ≡ (ok tt, nothing_set)
  unfolding proxy_setup pure
  no_proxy relay = rw relay refl

  no_events : (s : Statics) → conf.mesh.border_gateway ≡ true → setup_events out conf s ≡ (ok tt, s)
  unfolding setup_events events_setup spawn_all pure ◌>>=◌
  no_events s border = rw border refl

  no_programs :
      (s : Statics) → conf.mesh.border_gateway ≡ true → setup_commands out conf s ≡ (ok tt, s)
  unfolding setup_commands commands_setup
  no_programs s border = rw border refl

  spawned :
      (ts : List Task) (s : Statics)
      → s.gateway_id ≡ some id
      → s.relay_id ≡ some relay_id
      → spawn_all ts s
        ≡ (ok tt, record s { starts = s.starts ++ map (λ t. late id relay_id (report_loop t)) ts })
  unfolding spawn_all spawn pure ◌>>=◌
  spawned [] s g r = ap (λ l. (ok tt, record s { starts = l })) (sym (append-nil s.starts))
  spawned (t ∷ ts) s g r =
      let start : Start = record {
        spawned = report_loop t;
        gateway_id = s.gateway_id;
        relay_id = s.relay_id;
      } in
      spawned ts (record s { starts = s.starts ++ start ∷ [] }) g r
      ∙ ap₂
          (λ i j. (
            ok tt,
            record s {
              starts =
                  (s.starts
                    ++ record { spawned = report_loop t; gateway_id = i; relay_id = j } ∷ [])
                  ++ map (λ t. late id relay_id (report_loop t)) ts;
            },
          ))
          g r
      ∙ ap (λ l. (ok tt, record s { starts = l }))
          (append_assoc s.starts (late id relay_id (report_loop t) ∷ [])
            (map (λ t. late id relay_id (report_loop t)) ts))

  events_ready :
      (s : Statics) (table : Table)
      → conf.mesh.border_gateway ≡ false
      → s.event_commands ≡ none
      → s.gateway_id ≡ some id
      → s.relay_id ≡ some relay_id
      → collect out.parse no_commands conf.events.commands ≡ ok table
      → setup_events out conf s ≡ (
        ok tt,
        record s {
          event_commands = some table;
          starts = s.starts ++ map (λ t. late id relay_id (report_loop t)) (tasks conf.events);
        },
      )
  unfolding setup_events events_setup ◌>>=◌
  events_ready s table relay unset g r table_is =
      rw (relay, unset, table_is)
        (spawned (tasks conf.events) (record s { event_commands = some table }) g r)

  programs_ready :
      (s : Statics) (table : Table)
      → conf.mesh.border_gateway ≡ false
      → s.commands ≡ none
      → collect out.parse no_commands conf.commands.commands ≡ ok table
      → setup_commands out conf s ≡ (ok tt, record s { commands = some table })
  unfolding setup_commands commands_setup
  programs_ready s table relay unset table_is = rw (relay, unset, table_is) refl

  -- What `run` returns after the setups: it waits for a signal.
  abbrev pub signalled : Result (Unit {0})
  signalled = Result.◌>>◌ out.new_signals out.next_signal

  waits :
      {S : Type 0} (a b : Result (Unit {0})) (s : S) → (lift a >> lift b) s ≡ (Result.◌>>◌ a b, s)
  unfolding lift ◌>>=◌
  waits (ok u) b s = refl
  waits (err e) b s = refl
  waits panicked b s = refl
  waits diverged b s = refl

  -- A Border Gateway whose Concentratord processes answer with identifiers starts, whatever else is
  -- configured: it sets the identifiers and all channels, has no programs and no reports, and takes
  -- commands through the proxy API before the gateway ID is set. Then it waits for a signal, and returns
  -- what the wait returns.
  pub run_border :
      conf.mesh.border_gateway ≡ true
      → run out conf nothing_set ≡ (
        signalled,
        record {
          event_chan = some tt;
          cmd_chan = some tt;
          mesh_cmd_chan = some tt;
          gateway_id = some id;
          relay_id = some relay_id;
          event_commands = none;
          commands = none;
          starts = proxy_starts conf ++ backend_starts conf id relay_id;
        },
      )
  unfolding run proxy_setup set_event_chan spawn pure
  run_border border =
      >>=-step (proxy_setup conf) _ nothing_set (proxy_ready border)
      ∙ >>=-step (backend_setup out conf) _ _
          (backend_ready (some tt) none none (proxy_starts conf))
      ∙ >>=-step (setup_events out conf) _ _ (no_events _ border)
      ∙ >>=-step (setup_commands out conf) _ _ (no_programs _ border)
      ∙ waits out.new_signals out.next_signal _

  -- A relay whose Concentratord processes answer with identifiers, and whose tables have only bytes
  -- for keys, starts: it sets the identifiers, the channels of the backends and the tables. After the
  -- loops of the backends, of which the one over the uplinks starts before the relay ID is set, and with
  -- both identifiers set, it starts the loop of the heartbeat, unless the interval is zero, and a loop for
  -- each event set with its events and interval. Then it waits for a signal, and returns what the wait returns.
  pub run_relay :
      (event_table table : Table)
      → conf.mesh.border_gateway ≡ false
      → collect out.parse no_commands conf.events.commands ≡ ok event_table
      → collect out.parse no_commands conf.commands.commands ≡ ok table
      → (beats : List Task) × Beats conf.events.heartbeat_interval beats
        × (run out conf nothing_set ≡ (
          signalled,
          record {
            event_chan = none;
            cmd_chan = some tt;
            mesh_cmd_chan = some tt;
            gateway_id = some id;
            relay_id = some relay_id;
            event_commands = some event_table;
            commands = some table;
            starts =
                backend_starts conf id relay_id
                ++ map
                    (λ t. late id relay_id (report_loop t))
                    (beats
                      ++ map
                          (λ (set : EventsSet). event_set_loop set.events set.interval)
                          conf.events.sets);
          },
        ))
  unfolding run
  run_relay event_table table relay events_is table_is =
      let (beats, are, all) = tasks-Beats conf.events in
      (
        beats,
        are,
        >>=-step (proxy_setup conf) _ nothing_set (no_proxy relay)
            ∙ >>=-step (backend_setup out conf) _ _ (backend_ready none none none [])
            ∙ >>=-step (setup_events out conf) _ _
                (events_ready _ event_table relay refl refl refl events_is)
            ∙ >>=-step (setup_commands out conf) _ _ (programs_ready _ table relay refl table_is)
            ∙ waits out.new_signals out.next_signal _
            ∙ ap
                (λ l. (
                  signalled,
                  record {
                    event_chan = none;
                    cmd_chan = some tt;
                    mesh_cmd_chan = some tt;
                    gateway_id = some id;
                    relay_id = some relay_id;
                    event_commands = some event_table;
                    commands = some table;
                    starts =
                        backend_starts conf id relay_id
                        ++ map (λ t. late id relay_id (report_loop t)) l;
                  },
                ))
                all,
      )
