-- ===== src/Tests/Messages.antt =====
-- A run of the thread of the events on a toy socket.
use chirpstack_gateway_mesh.Common.{ℕ, ◌≡◌, refl, true, List, [], ◌∷◌}
use chirpstack_gateway_mesh.Common.Result.{Result, ok, err, zmq_error, decode_error}
use chirpstack_gateway_mesh.Zmq.Socket.{Zmq, IsSub}
use chirpstack_gateway_mesh.Zmq.Requests.{event_thread}
use chirpstack_gateway_mesh.Zmq.Events.{event_thread-decoded}

-- A SUB socket is the messages that have arrived.
abbrev Messages : Type 0
Messages = List (List ℕ)

abbrev take_first : Messages → Result (List ℕ) × Messages
take_first [] = (err zmq_error, [])
take_first (b ∷ bs) = (ok b, bs)

abbrev sub : Zmq Messages
sub = record {
  send = λ b s. (err zmq_error, s);
  is_readable = λ s. (ok true, s);
  recv_bytes = take_first;
}

sub-IsSub : IsSub sub (λ s. s)
sub-IsSub = record { delivers = λ s b bs has. rw has (bs, refl, refl) }

-- The event of a message is its first byte.
abbrev decode : List ℕ → Result ℕ
decode [] = err decode_error
decode (c ∷ cs) = ok c

event_thread-decoded_example :
    (t : Messages) × (event_thread sub decode 3 ((5 ∷ []) ∷ [] ∷ (6 ∷ 7 ∷ []) ∷ [])
      ≡ (ok (5 ∷ 6 ∷ []), t))
    × (t ≡ [])
event_thread-decoded_example =
    event_thread-decoded sub decode (λ s. s) sub-IsSub ((5 ∷ []) ∷ [] ∷ (6 ∷ 7 ∷ []) ∷ [])
      ((5 ∷ []) ∷ [] ∷ (6 ∷ 7 ∷ []) ∷ []) refl (tt, (tt, (tt, tt)))
