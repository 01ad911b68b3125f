-- ===== src/Commands.antt =====
-- `src/commands.rs`: the commands of a payload are executed, if it is newer than the last one.
use chirpstack_gateway_mesh.Common.{
  ℕ, ◌≡◌, refl, ap, ◌∙◌, arith, ◌⊎◌, inl, inr, Bool-cases, true, List, [], ◌∷◌, Option, none, some,
}
use chirpstack_gateway_mesh.Common.Result
use chirpstack_gateway_mesh.Common.Time.{SystemTime, time_ge}
use chirpstack_gateway_mesh.Common.Result.{
  Result, ok, err, panicked, map_ok, reject_if, ok_or, timestamp_not_increased, commands_not_set,
  command_not_configured, command_is_empty,
}
use chirpstack_gateway_mesh.Packets.Event.{Event}
use chirpstack_gateway_mesh.Packets.Command.{Command}
use chirpstack_gateway_mesh.Packets.CommandPayload.{CommandPayload}
use chirpstack_gateway_mesh.Runtime.{State, Env, M, ◌>>=◌, ◌>>◌, pure, lift, inspect, attempt}

-- `if ts >= pl.timestamp`, if there is a last timestamp.
unfoldable pub check_timestamp : Option SystemTime → SystemTime → Result (Unit {0})
check_timestamp none timestamp = ok tt
check_timestamp (some ts) timestamp = reject_if (time_ge ts timestamp) timestamp_not_increased

Result-cases :
    (last : Option SystemTime) (t : SystemTime)
    → ((ts : SystemTime) × (last ≡ some ts) × (time_ge ts t ≡ true))
      ⊎ (check_timestamp last t ≡ ok tt)
unfolding check_timestamp
Result-cases none t = inr refl
Result-cases (some ts) t = elim (Bool-cases (time_ge ts t)) [
  | inl e ↦ inl (ts, refl, e)
  | inr e ↦ rw e (inr refl)
]

time_ge_refl : (a : SystemTime) → time_ge a a ≡ true
time_ge_refl a = ground arith

time_ge_trans : (a b c : SystemTime) → time_ge a b ≡ true → time_ge b c ≡ true → time_ge a c ≡ true
time_ge_trans a b c e f = ground arith

module _ {F32 : Type 0} where
  unfoldable pub set_last_timestamp : SystemTime → M (State F32) (Unit {0})
  set_last_timestamp ts = λ s. pure tt (record s { last_timestamp = some ts })

  module _ (env : Env F32) where
    -- The program of a type, from which its first argument names the executable.
    unfoldable pub run_args : ℕ → List ℕ → List (List ℕ) → Result Event
    run_args typ value [] = err command_is_empty
    run_args typ value (arg ∷ args) = map_ok (Event.proprietary typ) (env.run (arg ∷ args) value)

    unfoldable pub execute_proprietary : ℕ → List ℕ → Result Event
    unfolding run_args
    execute_proprietary typ value = Result.◌>>=◌ (ok_or env.commands commands_not_set) (λ commands.
        Result.◌>>=◌ (ok_or (commands typ) command_not_configured) (run_args typ value))

    -- An encrypted command would panic.
    unfoldable pub execute_command : Command → Result Event
    unfolding execute_proprietary
    execute_command (Command.proprietary t v) = execute_proprietary t v
    execute_command (Command.encrypted v) = panicked

    -- `match resp { Ok(v) => out.push(v), Err(e) => error!(..) }`.
    abbrev pub push_response : Option Event → List Event → List Event
    push_response none out = out
    push_response (some e) out = e ∷ out

    unfoldable pub execute_all : List Command → M (State F32) (List Event)
    unfolding execute_command
    execute_all [] = pure []
    execute_all (cmd ∷ cmds) = do
      resp ← attempt (lift (execute_command cmd))
      out ← execute_all cmds
      pure (push_response resp out)

    unfoldable pub execute_commands : CommandPayload → M (State F32) (List Event)
    unfolding check_timestamp set_last_timestamp execute_all
    execute_commands pl = do
      inspect (λ s. check_timestamp s.last_timestamp pl.timestamp)
      set_last_timestamp pl.timestamp
      execute_all pl.commands

    execute_all-state : (cmds : List Command) (s : State F32) → (execute_all cmds s).1 ≡ s
    unfolding execute_all ◌>>=◌
    execute_all-state [] s = refl
    execute_all-state (c ∷ cmds) s = ground (arith, execute_all-state cmds s)

    refused :
        (ts : SystemTime) (pl : CommandPayload) (s : State F32)
        → s.last_timestamp ≡ some ts
        → time_ge ts pl.timestamp ≡ true
        → execute_commands pl s ≡ (err timestamp_not_increased, s)
    unfolding execute_commands check_timestamp ◌>>=◌
    refused ts pl s same newer = ground (arith, same, newer)

    -- After a call the last timestamp is not older than that of the payload.
    last_after :
        (pl : CommandPayload) (s : State F32)
        → (ts : SystemTime) × ((execute_commands pl s).1.last_timestamp ≡ some ts)
          × (time_ge ts pl.timestamp ≡ true)
    unfolding execute_commands set_last_timestamp ◌>>=◌
    last_after pl s = elim (Result-cases s.last_timestamp pl.timestamp) [
      | inl (ts, same, newer) ↦
          (ts, ap (λ r. r.1.last_timestamp) (refused ts pl s same newer) ∙ same, newer)
      | inr fresh ↦ (
        pl.timestamp,
        ground (
          arith,
          fresh,
          execute_all-state pl.commands (record s { last_timestamp = some pl.timestamp }),
        ),
        time_ge_refl pl.timestamp,
      )
    ]

    -- The timestamps of executed payloads increase: after a call, whatever its result, the same
    -- payload, and each payload that is not newer, is refused and leaves the state as it is.
    pub execute_commands_again :
        (pl later : CommandPayload) (s : State F32)
        → time_ge pl.timestamp later.timestamp ≡ true
        → let s' = (execute_commands pl s).1 in
          execute_commands later s' ≡ (err timestamp_not_increased, s')
    execute_commands_again pl later s e =
        let (ts, last, ge) = last_after pl s in
        refused ts later (execute_commands pl s).1 last
          (time_ge_trans ts pl.timestamp later.timestamp ge e)
