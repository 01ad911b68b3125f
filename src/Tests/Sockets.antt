-- ===== src/Tests/Sockets.antt =====
-- Runs of the socket threads on toy sockets.
use chirpstack_gateway_mesh.Common.{ℕ, ◌≡◌, refl, ap, sym, Bool, true, false, List, [], ◌∷◌, ◌++◌}
use chirpstack_gateway_mesh.Common.Int.{ℤ}
use chirpstack_gateway_mesh.Common.Result.{
  Result, ok, err, panicked, zmq_error, no_response, Error, IsSettled,
}
use chirpstack_gateway_mesh.Gw
use chirpstack_gateway_mesh.Runtime.{State, ◌>>=◌}
use chirpstack_gateway_mesh.Proxy.{command_loop}
use chirpstack_gateway_mesh.Mesh.Handle.{start}
use chirpstack_gateway_mesh.Zmq.Socket.{Zmq, IsReq, IsRep}
use chirpstack_gateway_mesh.Zmq.Requests
use chirpstack_gateway_mesh.Zmq.Requests.{command_thread_lapses}
use chirpstack_gateway_mesh.Zmq.Replies
use chirpstack_gateway_mesh.Zmq.Replies.{command_thread-command_loop, command_thread_interrupted}
use chirpstack_gateway_mesh.Tests.Data.{env}

-- A REQ socket, with the outcomes of its next polls.
record ReqSocket : Type 0 where
  waiting : Bool
  polls : List Bool

req_send : Bool → ReqSocket → Result (Unit {0}) × ReqSocket
req_send true s = (err zmq_error, s)
req_send false s = (ok tt, record s { waiting = true })

req_poll : List Bool → ReqSocket → Result Bool × ReqSocket
req_poll [] s = (ok true, s)
req_poll (b ∷ bs) s = (ok b, record s { polls = bs })

req_recv : Bool → ReqSocket → Result (List ℕ) × ReqSocket
req_recv true s = (ok (1 ∷ []), record s { waiting = false })
req_recv false s = (err zmq_error, s)

abbrev req : Zmq ReqSocket
unfolding req_send req_poll req_recv
req = record {
  send = λ b s. req_send s.waiting s;
  is_readable = λ s. req_poll s.polls s;
  recv_bytes = λ s. req_recv s.waiting s;
}

abbrev is_waiting : ReqSocket → Bool
is_waiting s = s.waiting

poll_settled : (bs : List Bool) (s : ReqSocket) → IsSettled (req_poll bs s).0
unfolding req_poll
poll_settled [] s = tt
poll_settled (b ∷ bs) s = tt

poll_kept : (bs : List Bool) (s : ReqSocket) → is_waiting (req_poll bs s).1 ≡ is_waiting s
unfolding req_poll
poll_kept [] s = refl
poll_kept (b ∷ bs) s = refl

sent_waits : (w : Bool) (s t : ReqSocket) → req_send w s ≡ (ok tt, t) → is_waiting t ≡ true
unfolding req_send
sent_waits true s t h = absurd (cc h)
sent_waits false s t h = ap (λ x. is_waiting x.1) (sym h)

req-IsReq : IsReq req is_waiting
unfolding req
req-IsReq = record {
  waits = λ b s t h. sent_waits s.waiting s t h;
  refuses = λ b s h. rw h refl;
  poll_keeps = λ s. poll_kept s.polls s;
}

-- The first command gets no response in time.
command_thread_lapses_example :
    Requests.command_thread req
      (λ (c : ℕ). c ∷ [])
      ((1, true) ∷ (2, true) ∷ (3, true) ∷ [])
      (record { waiting = false; polls = false ∷ [] })
    ≡ (
      ok (err no_response ∷ err zmq_error ∷ err zmq_error ∷ []),
      record { waiting = true; polls = [] },
    )
unfolding req
command_thread_lapses_example =
    command_thread_lapses req (λ c. c ∷ []) is_waiting req-IsReq 1 ((2, true) ∷ (3, true) ∷ [])
      (record { waiting = false; polls = false ∷ [] })
      (record { waiting = true; polls = false ∷ [] }) (record { waiting = true; polls = [] }) refl
      refl (refl, (refl, tt))

-- A REP socket.
record RepSocket : Type 0 where
  due : Bool
  inbox : List (List ℕ)
  outbox : List (List ℕ)

rep_recv : Bool → List (List ℕ) → RepSocket → Result (List ℕ) × RepSocket
rep_recv true bs s = (err zmq_error, s)
rep_recv false [] s = (err zmq_error, s)
rep_recv false (b ∷ bs) s = (ok b, record s { due = true; inbox = bs })

rep_send : Bool → List ℕ → RepSocket → Result (Unit {0}) × RepSocket
rep_send false b s = (err zmq_error, s)
rep_send true b s = (ok tt, record s { due = false; outbox = s.outbox ++ b ∷ [] })

abbrev rep : Zmq RepSocket
unfolding rep_recv rep_send
rep = record {
  send = λ b s. rep_send s.due b s;
  is_readable = λ s. (ok true, s);
  recv_bytes = λ s. rep_recv s.due s.inbox s;
}

abbrev is_due : RepSocket → Bool
is_due s = s.due

abbrev inbox_of : RepSocket → List (List ℕ)
inbox_of s = s.inbox

abbrev outbox_of : RepSocket → List (List ℕ)
outbox_of s = s.outbox

rep_kept :
    (d : Bool) (bs : List (List ℕ)) (s : RepSocket) (e : Error)
    → (rep_recv d bs s).0 ≡ err e
    → is_due (rep_recv d bs s).1 ≡ is_due s
unfolding rep_recv
rep_kept true bs s e h = refl
rep_kept false [] s e h = refl
rep_kept false (b ∷ bs) s e h = absurd (cc h)

rep-IsRep : IsRep rep is_due inbox_of outbox_of
unfolding rep
rep-IsRep = record {
  delivers = λ s b bs h i. (record s { due = true; inbox = bs }, rw (h, i) refl, refl, refl, refl);
  takes =
      λ s b h. (record s { due = false; outbox = s.outbox ++ b ∷ [] }, rw h refl, refl, refl, refl);
  refuses = λ s b h. rw h refl;
  recv_keeps = λ s e h. rep_kept s.due s.inbox s e h;
}

abbrev gateway_ids : List (List ℕ)
gateway_ids = (1 ∷ 2 ∷ 3 ∷ 4 ∷ 5 ∷ 6 ∷ 7 ∷ 8 ∷ []) ∷ (1 ∷ 2 ∷ 3 ∷ 4 ∷ 5 ∷ 6 ∷ 7 ∷ 8 ∷ []) ∷ []

abbrev decode : List ℕ → Result Gw.Command
decode b = ok Gw.Command.get_gateway_id

abbrev commands : List Gw.Command
commands = Gw.Command.get_gateway_id ∷ Gw.Command.get_gateway_id ∷ []

abbrev begin : State ℤ
begin = start

abbrev requested : RepSocket
requested = record { due = false; inbox = (1 ∷ []) ∷ (2 ∷ []) ∷ []; outbox = [] }

replied : (command_loop env commands begin).0 ≡ ok gateway_ids
unfolding command_loop ◌>>=◌
replied = refl

command_thread-command_loop_example :
    (s : RepSocket) × (Replies.command_thread rep decode env 2 (requested, begin)
      ≡ (ok tt, (s, (command_loop env commands begin).1)))
    × (is_due s ≡ false)
    × (inbox_of s ≡ [])
    × (outbox_of s ≡ outbox_of requested ++ gateway_ids)
command_thread-command_loop_example =
    command_thread-command_loop rep decode env is_due inbox_of outbox_of rep-IsRep
      ((1 ∷ []) ∷ (2 ∷ []) ∷ []) commands requested begin refl refl refl replied

command_thread_interrupted_example :
    (Replies.command_thread rep decode env 1
      (record { due = false; inbox = []; outbox = [] }, begin)).0
    ≡ panicked
unfolding rep
command_thread_interrupted_example =
    command_thread_interrupted rep decode env is_due inbox_of outbox_of rep-IsRep 0
      (record { due = false; inbox = []; outbox = [] }) begin zmq_error refl refl
