-- ===== src/Zmq/Requests.antt =====
-- `src/backend.rs`: the thread that hands the commands to a Concentratord, and the thread that reads
-- its events. Commands and events are encoded and decoded outside of the sources.
use chirpstack_gateway_mesh.Common.{
  ℕ, zero, suc, ◌≡◌, refl, sym, ap, ◌∙◌, Bool, true, false, not, List, [], ◌∷◌, map, Option, none,
  some, All,
}
use chirpstack_gateway_mesh.Common.Result.{
  Result, ok, err, panicked, reject_if, zmq_error, no_response,
}
use chirpstack_gateway_mesh.Runtime.{M, ◌>>=◌, ◌>>◌, pure, lift, outcome, kept, attempt}
use chirpstack_gateway_mesh.Runtime.Returns.{>>=-step}
use chirpstack_gateway_mesh.Zmq.Socket.{Zmq, IsReq}

module _ {Sock C : Type 0} (zmq : Zmq Sock) (encode : C → List ℕ) where
  unfoldable pub send_zmq_command : C → M Sock (List ℕ)
  send_zmq_command cmd = do
    zmq.send (encode cmd)
    readable ← zmq.is_readable
    lift (reject_if (not readable) no_response)
    zmq.recv_bytes

  -- `cmd.1.send(resp).unwrap()`: it panics where nobody waits for the response any more.
  unfoldable pub hand_over : Bool → Result (Unit {0})
  hand_over true = ok tt
  hand_over false = panicked

  -- The responses to the commands, each of which says whether its sender waits for the response.
  unfoldable pub command_thread : List (C × Bool) → M Sock (List (Result (List ℕ)))
  unfolding send_zmq_command hand_over
  command_thread [] = pure []
  command_thread ((cmd, listens) ∷ cmds) = do
    resp ← outcome (send_zmq_command cmd)
    lift (hand_over listens)
    resps ← command_thread cmds
    pure (resp ∷ resps)

  module _ (waiting : Sock → Bool) (req : IsReq zmq waiting) where
    -- While a response is outstanding no command is sent.
    send_zmq_command-refused :
        (cmd : C) (s : Sock) → waiting s ≡ true → send_zmq_command cmd s ≡ (err zmq_error, s)
    unfolding send_zmq_command ◌>>=◌
    send_zmq_command-refused cmd s w = rw (req.refuses (encode cmd) s w) refl

    abbrev pub Listens : C × Bool → Type 0
    Listens cmd = cmd.1 ≡ true

    abbrev pub refused : List (C × Bool) → List (Result (List ℕ))
    refused cmds = map (λ cmd. err zmq_error) cmds

    command_thread-refused :
        (cmds : List (C × Bool)) (s : Sock)
        → All Listens cmds
        → waiting s ≡ true
        → command_thread cmds s ≡ (ok (refused cmds), s)
    unfolding command_thread outcome pure hand_over lift ◌>>=◌
    command_thread-refused [] s h w = refl
    command_thread-refused ((cmd, listens) ∷ cmds) s h w =
        rw (send_zmq_command-refused cmd s w, h.0, command_thread-refused cmds s h.1 w) refl

    timed_out :
        (cmd : C) (s t u : Sock)
        → zmq.send (encode cmd) s ≡ (ok tt, t)
        → zmq.is_readable t ≡ (ok false, u)
        → send_zmq_command cmd s ≡ (err no_response, u)
    unfolding send_zmq_command lift ◌>>=◌
    timed_out cmd s t u sends polls =
        >>=-step (zmq.send (encode cmd)) _ s sends ∙ >>=-step zmq.is_readable _ t polls

    -- After a command whose response is not there when the poll ends, no later command is sent: that
    -- command is answered with the error of the timeout, each later command with the error
    -- of the socket, if the senders wait for the responses, and the socket stays as the poll left it.
    pub command_thread_lapses :
        (cmd : C) (cmds : List (C × Bool)) (s t u : Sock)
        → zmq.send (encode cmd) s ≡ (ok tt, t)
        → zmq.is_readable t ≡ (ok false, u)
        → All Listens cmds
        → command_thread ((cmd, true) ∷ cmds) s ≡ (ok (err no_response ∷ refused cmds), u)
    unfolding command_thread outcome hand_over lift pure
    command_thread_lapses cmd cmds s t u sends polls h =
        let late = timed_out cmd s t u sends polls in
        let waits : waiting u ≡ true =
          ap (λ x. waiting x.1) (sym polls) ∙ req.poll_keeps t ∙ req.waits (encode cmd) s t sends in
        >>=-step (outcome (send_zmq_command cmd)) _ s (ap kept late)
        ∙ >>=-step (lift (hand_over true)) _ u refl
        ∙ >>=-step (command_thread cmds) _ u (command_thread-refused cmds u h waits)

-- The events of a Concentratord; what fails to be read or decoded is skipped.
module _ {Sock E : Type 0} (zmq : Zmq Sock) (decode : List ℕ → Result E) where
  unfoldable pub receive_zmq_event : M Sock E
  receive_zmq_event = do b ← zmq.recv_bytes; lift (decode b)

  abbrev pub put : Option E → List E → List E
  put none events = events
  put (some e) events = e ∷ events

  -- The events that the thread passes on to the event loop in its first rounds.
  unfoldable pub event_thread : ℕ → M Sock (List E)
  unfolding receive_zmq_event
  event_thread zero = pure []
  event_thread (suc rounds) = do
    event ← attempt receive_zmq_event
    events ← event_thread rounds
    pure (put event events)
