-- ===== src/Zmq/Replies.antt =====
-- `src/proxy.rs`: the thread that takes the commands of the network server from a REP socket, and
-- its connection with the command loop. A panic of the loop counts as one of the thread.
use chirpstack_gateway_mesh.Common.{
  ℕ, zero, suc, ◌≡◌, refl, sym, ◌∙◌, ap, true, false, List, [], ◌∷◌, ◌++◌, map, length, Bool,
  append_assoc, append-nil,
}
use chirpstack_gateway_mesh.Common.Result.{
  Result, ok, err, panicked, diverged, unwrap, ok_injective, Error,
}
use chirpstack_gateway_mesh.Gw
use chirpstack_gateway_mesh.Runtime.{
  State, Env, M, ◌>>=◌, ◌>>◌, pure, lift, outcome, kept, attempt, unwrapped,
}
use chirpstack_gateway_mesh.Runtime.Returns.{>>=-step, >>=-eq-ok}
use chirpstack_gateway_mesh.Proxy.{reply_of, handle_command, command_loop}
use chirpstack_gateway_mesh.Zmq.Socket.{Zmq, IsRep}

module _ {Sock S : Type 0} where
  -- Steps on the socket, and steps of the program.
  unfoldable pub on_socket : {A : Type 0} → M Sock A → M (Sock × S) A
  on_socket m s = ((m s.0).0, ((m s.0).1, s.1))

  unfoldable pub on_program : {A : Type 0} → M S A → M (Sock × S) A
  on_program m s = ((m s.1).0, (s.0, (m s.1).1))

module _ {Sock F32 : Type 0} (zmq : Zmq Sock) (decode : List ℕ → Result Gw.Command)
    (env : Env F32) where
  unfoldable pub receive_zmq_command : M Sock Gw.Command
  receive_zmq_command = do b ← zmq.recv_bytes; lift (decode b)

  -- The command is handed to the command loop, which replies to it.
  unfoldable pub reply_to : Gw.Command → M (State F32) (List ℕ)
  unfolding handle_command
  reply_to cmd = do reply ← attempt (handle_command env cmd); pure (reply_of reply)

  unfoldable pub respond : Result Gw.Command → M (Sock × State F32) (Unit {0})
  unfolding on_socket on_program reply_to
  respond (ok cmd) = do reply ← on_program (reply_to cmd); on_socket (unwrapped (zmq.send reply))
  respond (err e) = on_socket (unwrapped (zmq.send []))
  respond panicked = lift panicked
  respond diverged = lift diverged

  -- The first rounds of the loop.
  unfoldable pub command_thread : ℕ → M (Sock × State F32) (Unit {0})
  unfolding receive_zmq_command on_socket respond
  command_thread zero = pure tt
  command_thread (suc rounds) = do
    cmd ← outcome (on_socket receive_zmq_command)
    respond cmd
    command_thread rounds

  module _ (due : Sock → Bool) (inbox outbox : Sock → List (List ℕ))
      (rep : IsRep zmq due inbox outbox) where
    received :
        (s : Sock) (b : List ℕ) (bs : List (List ℕ)) (cmd : Gw.Command)
        → due s ≡ false
        → inbox s ≡ b ∷ bs
        → decode b ≡ ok cmd
        → (t : Sock) × (receive_zmq_command s ≡ (ok cmd, t))
          × (due t ≡ true)
          × (inbox t ≡ bs)
          × (outbox t ≡ outbox s)
    unfolding receive_zmq_command lift
    received s b bs cmd idle has decodes =
        let (t, e, now_due, left, same) = rep.delivers s b bs idle has in
        (t, >>=-step zmq.recv_bytes _ s e ∙ ap (λ r. (r, t)) decodes, now_due, left, same)

    -- One round takes one request and sends one reply.
    round :
        (n : ℕ) (s : Sock) (t t' : State F32) (b : List ℕ) (bs : List (List ℕ)) (cmd : Gw.Command)
        (reply : List ℕ)
        → due s ≡ false
        → inbox s ≡ b ∷ bs
        → decode b ≡ ok cmd
        → reply_to cmd t ≡ (ok reply, t')
        → (s' : Sock) × (command_thread (suc n) (s, t) ≡ command_thread n (s', t'))
          × (due s' ≡ false)
          × (inbox s' ≡ bs)
          × (outbox s' ≡ outbox s ++ reply ∷ [])
    unfolding command_thread respond outcome on_socket on_program unwrapped
    round n s t t' b bs cmd reply idle has decodes replies =
        let (u, got, now_due, left, same) = received s b bs cmd idle has decodes in
        let (v, sends, done, left', sent) = rep.takes u reply now_due in
        let responds : respond (ok cmd) (u, t) ≡ (ok tt, (v, t')) =
          >>=-step (on_program (reply_to cmd)) _ (u, t) (ap (λ x. (x.0, (u, x.1))) replies)
          ∙ ap (λ x. (unwrap x.0, (x.1, t'))) sends in
        (
          v,
          >>=-step (outcome (on_socket receive_zmq_command)) _ (s, t)
                (ap (λ x. kept (x.0, (x.1, t))) got)
              ∙ >>=-step (respond (ok cmd)) _ (u, t) responds,
          done,
          left' ∙ left,
          sent ∙ ap (λ sent. sent ++ reply ∷ []) same,
        )

    -- The thread and the command loop together: if the requests in the socket decode to commands, to
    -- which the command loop replies, then as many rounds of the thread take all of them, send exactly these
    -- replies in this order, one to each request, and leave the program as the loop does.
    pub command_thread-command_loop :
        (bs : List (List ℕ)) (cmds : List Gw.Command) (s : Sock) (t : State F32)
        {replies : List (List ℕ)}
        → map decode bs ≡ map ok cmds
        → due s ≡ false
        → inbox s ≡ bs
        → (command_loop env cmds t).0 ≡ ok replies
        → (s' : Sock) × (command_thread (length bs) (s, t)
            ≡ (ok tt, (s', (command_loop env cmds t).1)))
          × (due s' ≡ false)
          × (inbox s' ≡ [])
          × (outbox s' ≡ outbox s ++ replies)
    unfolding command_thread command_loop reply_to pure
    command_thread-command_loop [] [] s t decodes idle has loop = (
      s,
      refl,
      idle,
      has,
      sym (append-nil (outbox s)) ∙ ap (λ r. outbox s ++ r) (ok_injective loop),
    )
    command_thread-command_loop [] (cmd ∷ cmds) s t decodes idle has loop = absurd (cc decodes)
    command_thread-command_loop (b ∷ bs) [] s t decodes idle has loop = absurd (cc decodes)
    command_thread-command_loop (b ∷ bs) (cmd ∷ cmds) s t decodes idle has loop =
        let (reply, handled, rest) = >>=-eq-ok (attempt (handle_command env cmd)) _ t loop in
        let t' = (attempt (handle_command env cmd) t).1 in
        let (replies', looped, e) = >>=-eq-ok (command_loop env cmds) _ t' rest in
        let decoded : decode b ≡ ok cmd = cc decodes in
        let others : map decode bs ≡ map ok cmds = cc decodes in
        let answers : attempt (handle_command env cmd) t ≡ (ok reply, t') =
          ap (λ r. (r, t')) handled in
        let state : (command_loop env (cmd ∷ cmds) t).1 ≡ (command_loop env cmds t').1 =
          ap (λ x. x.1)
            (>>=-step (attempt (handle_command env cmd)) _ t answers
              ∙ >>=-step (command_loop env cmds) _ t'
                  (ap (λ r. (r, (command_loop env cmds t').1)) looped)) in
        let (v, run, done, left, sent) =
          round (length bs) s t t' b bs cmd (reply_of reply) idle has decoded
            (>>=-step (attempt (handle_command env cmd)) _ t answers) in
        let (s', goes_on, done', left', sent') =
          command_thread-command_loop bs cmds v t' others done left looped in
        (
          s',
          run ∙ goes_on ∙ ap (λ t. (ok tt, (s', t))) (sym state),
          done',
          left',
          sent'
              ∙ ap (λ l. l ++ replies') sent
              ∙ append_assoc (outbox s) (reply_of reply ∷ []) replies'
              ∙ ap (λ l. outbox s ++ l) (ok_injective e),
        )

    -- Where the receiving itself fails while no reply is due, the
    -- empty reply is refused, and the thread panics: the proxy API takes no more commands.
    pub command_thread_interrupted :
        (n : ℕ) (s : Sock) (t : State F32) (e : Error)
        → due s ≡ false
        → (zmq.recv_bytes s).0 ≡ err e
        → (command_thread (suc n) (s, t)).0 ≡ panicked
    unfolding command_thread receive_zmq_command respond outcome on_socket unwrapped ◌>>=◌
    command_thread_interrupted n s t e idle fails =
        let u = (zmq.recv_bytes s).1 in
        let idle' : due u ≡ false = rep.recv_keeps s e fails ∙ idle in
        rw (fails, rep.refuses u [] idle') refl
