-- ===== src/Zmq/Socket.antt =====
-- The interface of a ZeroMQ socket, which is not part of the sources, and what is documented of a
-- REQ and of a REP socket (each takes sends and receives in turn, and fails a send out of turn) and
-- of a SUB socket.
use chirpstack_gateway_mesh.Common.{ℕ, ◌≡◌, Bool, true, false, List, [], ◌∷◌, ◌++◌}
use chirpstack_gateway_mesh.Common.Result.{ok, err, Error, zmq_error}
use chirpstack_gateway_mesh.Runtime.{M}

-- `Socket::send`, `Socket::recv_bytes` (both without flags), and whether the socket is readable
-- after a `poll` of 100 ms.
pub record Zmq (Sock : Type 0) : Type 0 where
  pub send : List ℕ → M Sock (Unit {0})
  pub is_readable : M Sock Bool
  pub recv_bytes : M Sock (List ℕ)

-- A REQ socket that has taken a request waits for the response; until it has received it, it fails
-- to send another (`EFSM`). A poll does not change that.
pub record IsReq {Sock : Type 0} (zmq : Zmq Sock) (waiting : Sock → Bool) : Type 0 where
  pub waits : (b : List ℕ) (s t : Sock) → zmq.send b s ≡ (ok tt, t) → waiting t ≡ true
  pub refuses : (b : List ℕ) (s : Sock) → waiting s ≡ true → zmq.send b s ≡ (err zmq_error, s)
  pub poll_keeps : (s : Sock) → waiting (zmq.is_readable s).1 ≡ waiting s

-- A REP socket delivers the requests in their order, and takes one response to each; it fails to
-- send where no response is due.
pub record IsRep {Sock : Type 0} (zmq : Zmq Sock) (due : Sock → Bool)
    (inbox outbox : Sock → List (List ℕ)) : Type 0 where
  pub delivers :
      (s : Sock) (b : List ℕ) (bs : List (List ℕ))
      → due s ≡ false
      → inbox s ≡ b ∷ bs
      → (t : Sock) × (zmq.recv_bytes s ≡ (ok b, t))
        × (due t ≡ true)
        × (inbox t ≡ bs)
        × (outbox t ≡ outbox s)
  pub takes :
      (s : Sock) (b : List ℕ)
      → due s ≡ true
      → (t : Sock) × (zmq.send b s ≡ (ok tt, t))
        × (due t ≡ false)
        × (inbox t ≡ inbox s)
        × (outbox t ≡ outbox s ++ b ∷ [])
  pub refuses : (s : Sock) (b : List ℕ) → due s ≡ false → zmq.send b s ≡ (err zmq_error, s)
  pub recv_keeps :
      (s : Sock) (e : Error) → (zmq.recv_bytes s).0 ≡ err e → due (zmq.recv_bytes s).1 ≡ due s

-- A SUB socket delivers the messages that have arrived in their order.
pub record IsSub {Sock : Type 0} (zmq : Zmq Sock) (inbox : Sock → List (List ℕ)) : Type 0 where
  pub delivers :
      (s : Sock) (b : List ℕ) (bs : List (List ℕ))
      → inbox s ≡ b ∷ bs
      → (t : Sock) × (zmq.recv_bytes s ≡ (ok b, t)) × (inbox t ≡ bs)
