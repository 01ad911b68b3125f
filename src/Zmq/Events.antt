-- ===== src/Zmq/Events.antt =====
-- What the thread of the events passes on, of `src/backend.rs`.
use chirpstack_gateway_mesh.Common.{
  ℕ, ◌≡◌, refl, ◌∙◌, ap, List, [], ◌∷◌, Option, none, some, length, All,
}
use chirpstack_gateway_mesh.Common.Result.{Result, ok, err, panicked, diverged, IsSettled}
use chirpstack_gateway_mesh.Runtime.{pure, lift, attempt, caught}
use chirpstack_gateway_mesh.Runtime.Returns.{>>=-step}
use chirpstack_gateway_mesh.Zmq.Socket.{Zmq, IsSub}
use chirpstack_gateway_mesh.Zmq.Requests.{receive_zmq_event, event_thread, put}

module _ {Sock E : Type 0} (zmq : Zmq Sock) (decode : List ℕ → Result E)
    (inbox : Sock → List (List ℕ)) (sub : IsSub zmq inbox) where
  abbrev event_in : Result E → Option E
  event_in (ok e) = some e
  event_in (err x) = none
  event_in panicked = none
  event_in diverged = none

  -- The events among the messages.
  abbrev pub decoded : List (List ℕ) → List E
  decoded [] = []
  decoded (b ∷ bs) = put zmq decode (event_in (decode b)) (decoded bs)

  caught_event : (r : Result E) (t : Sock) → IsSettled r → caught (r, t) ≡ (ok (event_in r), t)
  caught_event (ok e) t h = refl
  caught_event (err x) t h = refl
  caught_event panicked t h = absurd h
  caught_event diverged t h = absurd h

  -- The thread passes on every event that arrives, in order and once, and skips the messages that
  -- do not decode: after as many rounds as there are messages on the socket, none of which makes the
  -- decoder panic or hang, the socket is empty, and the events among them have been passed on.
  pub event_thread-decoded :
      (bs : List (List ℕ)) (s : Sock)
      → inbox s ≡ bs
      → All (λ b. IsSettled (decode b)) bs
      → (t : Sock) × (event_thread zmq decode (length bs) s ≡ (ok (decoded bs), t)) × (inbox t ≡ [])
  unfolding event_thread receive_zmq_event attempt lift pure
  event_thread-decoded [] s has h = (s, refl, has)
  event_thread-decoded (b ∷ bs) s has h =
      let (t, got, left) = sub.delivers s b bs has in
      let (t', rest, empty) = event_thread-decoded bs t left h.1 in
      let received =
        ap caught (>>=-step zmq.recv_bytes (λ b. lift (decode b)) s got)
        ∙ caught_event (decode b) t h.0 in
      (
        t',
        >>=-step (attempt (receive_zmq_event zmq decode)) _ s received
            ∙ >>=-step (event_thread zmq decode (length bs)) _ t rest,
        empty,
      )
