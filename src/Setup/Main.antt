-- ===== src/Setup/Main.antt =====
-- `src/main.rs` with `src/logging.rs`: the configuration is loaded, logging is set up, and the program
-- runs. The command line, the log levels, the loggers and the template are parameters.
use Prim.Native.String.{String}
use chirpstack_gateway_mesh.Common.{
  ℕ, zero, suc, ◌+◌, ◌<◌, ◌≡◌, ◌∙◌, ap, Bool, true, false, List, Option, none, some, arith,
}
use chirpstack_gateway_mesh.Common.Result
use chirpstack_gateway_mesh.Common.Result.{Result, ok, err, panicked, diverged, unwrap, Error}
use chirpstack_gateway_mesh.Config.{Configuration, get}
use chirpstack_gateway_mesh.Config.Load.{FileText, load}
use chirpstack_gateway_mesh.Runtime.{
  M, ◌>>=◌, ◌>>◌, pure, lift, inspect, attempt, unwrapped, caught, resume,
}
use chirpstack_gateway_mesh.Setup.Run.{Statics, Outside, run}

pub record Cli : Type 0 where
  pub config : List String
  -- The subcommand `configfile`.
  pub configfile : Bool

-- `CONFIG`, the statics of the other modules, and how often the setup of logging was tried.
pub record Process : Type 0 where
  pub config : Option Configuration
  pub statics : Statics
  pub tries : ℕ

-- How `main` ends: by the exit of the subcommand, or when `run` has returned.
pub data Exit : Type 0 where
  printed finished : Exit

-- What `main` calls outside of the sources, at each try of the loggers.
pub record System : Type 0 where
  pub read_to_string : String → Result FileText
  pub vars : List (FileText × FileText)
  pub from_toml : FileText → Result Configuration
  pub render_template : Configuration → Result (Unit {0})
  pub parse_level : String → Result (Unit {0})
  pub syslog_unix : ℕ → Result (Unit {0})
  pub set_boxed_logger : ℕ → Result (Unit {0})
  pub init_with_level : ℕ → Result (Unit {0})

unfoldable pub on_config : {A : Type 0} → M (Option Configuration) A → M Process A
on_config m s = ((m s.config).0, record s { config = (m s.config).1 })

unfoldable pub on_statics : {A : Type 0} → M Statics A → M Process A
on_statics m s = ((m s.statics).0, record s { statics = (m s.statics).1 })

module _ (sys : System) where
  -- `logging::setup`, at a try.
  unfoldable pub logging_setup : Bool → ℕ → Result (Unit {0})
  logging_setup true n = Result.◌>>◌ (sys.syslog_unix n) (sys.set_boxed_logger n)
  logging_setup false n = sys.init_with_level n

  unfoldable pub try_logging : Bool → M Process (Unit {0})
  unfolding logging_setup
  try_logging log_to_syslog s =
      (logging_setup log_to_syslog s.tries, record s { tries = s.tries + 1 })

  -- `while let Err(e) = logging::setup(..) { .. sleep(Duration::from_secs(1)) }`, on fuel.
  unfoldable pub until_logged : ℕ → Bool → M Process (Unit {0})
  unfolding try_logging
  until_logged zero log_to_syslog = lift diverged
  until_logged (suc fuel) log_to_syslog = attempt (try_logging log_to_syslog) >>= λ done.
      elim done [ some u ↦ pure tt | none ↦ until_logged fuel log_to_syslog ]

  -- `cmd::configfile::run` and `process::exit(0)`.
  unfoldable pub print_configfile : M Process Exit
  unfolding get
  print_configfile = do
    conf ← inspect (λ s. get s.config)
    lift (unwrap (sys.render_template conf))
    pure printed

  unfoldable pub start : Outside → ℕ → M Process Exit
  unfolding get until_logged on_statics run
  start out fuel = do
    conf ← inspect (λ s. get s.config)
    lift (unwrap (sys.parse_level conf.logging.level))
    until_logged fuel conf.logging.log_to_syslog
    unwrapped (on_statics (run out conf))
    pure finished

  unfoldable pub main : Outside → ℕ → Cli → M Process Exit
  unfolding on_config load print_configfile start
  main out fuel cli = do
    unwrapped (on_config (load sys.read_to_string sys.vars sys.from_toml cli.config))
    elim cli.configfile [ true ↦ print_configfile | false ↦ start out fuel ]

  abbrev go_on : ℕ → Bool → Option (Unit {0}) → M Process (Unit {0})
  go_on fuel log_to_syslog done = elim done [
    | some u ↦ pure tt
    | none ↦ until_logged fuel log_to_syslog
  ]

  tried :
      (fuel : ℕ) (log_to_syslog : Bool) (s : Process) (r : Result (Unit {0}))
      → logging_setup log_to_syslog s.tries ≡ r
      → until_logged (suc fuel) log_to_syslog s
        ≡ resume (caught (r, record s { tries = s.tries + 1 })) (go_on fuel log_to_syslog)
  unfolding until_logged try_logging attempt ◌>>=◌
  tried fuel log_to_syslog s r e =
      ap (λ r. resume (caught (r, record s { tries = s.tries + 1 })) (go_on fuel log_to_syslog)) e

  -- The setup of logging is tried until it succeeds: if it fails at the next `n` tries and succeeds at the
  -- one after them, the loop ends with enough fuel, namely more than `n`, after exactly `n + 1` tries,
  -- without a panic, and changes nothing else.
  pub until_logged_total :
      (n fuel : ℕ) (log_to_syslog : Bool) (s : Process)
      → n < fuel
      → ((i : ℕ) → i < n → (e : Error) × (logging_setup log_to_syslog (s.tries + i) ≡ err e))
      → logging_setup log_to_syslog (s.tries + n) ≡ ok tt
      → until_logged fuel log_to_syslog s ≡ (ok tt, record s { tries = s.tries + n + 1 })
  unfolding until_logged try_logging attempt pure ◌>>=◌
  until_logged_total n zero log_to_syslog s lt fails done = elim lt [ ]
  until_logged_total zero (suc fuel) log_to_syslog s lt fails done =
      tried fuel log_to_syslog s (ok tt) (ap (logging_setup log_to_syslog) (omega arith) ∙ done)
      ∙ ap (λ n. (ok tt, record s { tries = n })) (omega arith)
  until_logged_total (suc n) (suc fuel) log_to_syslog s lt fails done =
      let (e, failed) = fails 0 (omega arith) in
      let t : Process = record s { tries = s.tries + 1 } in
      tried fuel log_to_syslog s (err e) (ap (logging_setup log_to_syslog) (omega arith) ∙ failed)
      ∙ until_logged_total n fuel log_to_syslog t (omega arith)
          (λ i below.
            let (x, again) = fails (suc i) (omega arith) in
            (x, ap (logging_setup log_to_syslog) (omega arith) ∙ again))
          (ap (logging_setup log_to_syslog) (omega arith) ∙ done)
      ∙ ap (λ n. (ok tt, record s { tries = n })) (omega arith)
