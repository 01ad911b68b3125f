-- ===== src/Mesh/Order.antt =====
-- The way of commands: from the Border Gateway, which gets them from the network server, to the
-- relay that carries them out.
use chirpstack_gateway_mesh.Common.{
  ℕ, ◌+◌, ◌%◌, ◌<◌, ◌≡◌, refl, sym, ◌∙◌, ap, true, false, List, [], ◌∷◌, map, Option, some, none,
  length,
}
use chirpstack_gateway_mesh.Common.Int.{pos_part}
use chirpstack_gateway_mesh.Common.Bytes.{Bytes4}
use chirpstack_gateway_mesh.Common.Result.{
  Result, ok, err, panicked, diverged, ok_or, ok_injective, relay_id_not_set, rx_info_is_none,
}
use chirpstack_gateway_mesh.Common.Time.{SystemTime}
use chirpstack_gateway_mesh.Aes128.{IsBlockCipher}
use chirpstack_gateway_mesh.Cache
use chirpstack_gateway_mesh.Cache.PayloadCache.{PayloadCache, payload_cache_eq, from_packet}
use chirpstack_gateway_mesh.Packets.CommandPayload
use chirpstack_gateway_mesh.Packets.CommandPayload.{CommandPayload}
use chirpstack_gateway_mesh.Packets.MeshPacket
use chirpstack_gateway_mesh.Packets.MeshPacket.{
  MeshPacket, Payload, IsMac, IsSendable, seal, transport, mic_eq_iff,
}
use chirpstack_gateway_mesh.Packets.Command.{Command}
use chirpstack_gateway_mesh.Packets.Event.{Event}
use chirpstack_gateway_mesh.Gw.{UplinkFrame, UplinkRxInfo, MeshCommand, MeshCommandItem}
use chirpstack_gateway_mesh.Runtime.{State, Env, M, ◌>>=◌, ◌>>◌, pure, resume}
use chirpstack_gateway_mesh.Runtime.Returns
use chirpstack_gateway_mesh.Backend.{get_relay_id}
use chirpstack_gateway_mesh.Events.{now, send_events}
use chirpstack_gateway_mesh.Commands.{execute_commands}
use chirpstack_gateway_mesh.Mesh.Send.{signing_key, encryption_key}
use chirpstack_gateway_mesh.Mesh.Relay.{
  execute, respond, payload_to_relay, send_on, relay_mesh_packet,
}
use chirpstack_gateway_mesh.Mesh.Handle.{
  handle_mesh, dispatch, commands_of, command_packet, send_mesh_command,
}
use chirpstack_gateway_mesh.Mesh.Forward.{SentOne, sealed_sent, fresh_packet, encryption_key-length}
use chirpstack_gateway_mesh.Mesh.Deliver.{SharesMesh}
use chirpstack_gateway_mesh.Mesh.Answer.{ends}

module _ {F32 : Type 0} (env : Env F32) where
  -- The Border Gateway's part.
  commands_sent :
      (pl : MeshCommand) (relay_id : Bytes4) (wire : List ℕ) (s : State F32)
      → env.hex_decode4 pl.relay_id ≡ ok relay_id
      → seal env.aes env.cmac
          (encryption_key env)
          (signing_key env)
          (command_packet env (env.now s.reads) relay_id (commands_of pl.commands))
        ≡ ok wire
      → 0 < length env.conf.mesh.frequencies
      → SentOne env wire s (send_mesh_command env pl s).1
  unfolding send_mesh_command now pure
  commands_sent pl relay_id wire s id seals some_frequency =
      let t : State F32 = record s { reads = s.reads + 1 } in
      let (frame, frequency, items, sent) =
        sealed_sent env (command_packet env (env.now s.reads) relay_id (commands_of pl.commands))
          wire t seals some_frequency in
      (
        frame,
        frequency,
        items,
        ap (λ x. x.1.sent) (Returns.>>=-ok (now env) _ s refl ∙ Returns.>>=-lift-ok _ _ t id)
            ∙ sent,
      )

  -- The relay's part: it carries out the commands.
  carried_out :
      (pl : UplinkFrame F32) (rx_info : UplinkRxInfo F32) (packet : MeshPacket) (v : CommandPayload)
      (s : State F32)
      → packet.payload ≡ Payload.command v
      → env.relay_id ≡ some v.relay_id
      → pl.rx_info ≡ some rx_info
      → (relay_mesh_packet env pl packet s).1 ≡ (execute env v s).1
  unfolding relay_mesh_packet get_relay_id ◌>>=◌
  carried_out pl rx_info packet v s payload id received =
      ap (λ x. x.1)
        (Returns.>>=-lift-ok _ _ s (ap (λ o. ok_or o relay_id_not_set) id)
          ∙ Returns.>>=-lift-ok _ _ s (ap (λ o. ok_or o rx_info_is_none) received)
          ∙ ap (λ p. (payload_to_relay env v.relay_id rx_info p >>= send_on env packet) s) payload)
      ∙ ap
          (λ b.
            (((elim b as (λ x. M (State F32) (Option Payload)) [
              | true ↦ execute env v >> pure none
              | false ↦ pure (some (Payload.command v))
            ])
                >>= send_on env packet)
              s).1)
          ((mic_eq_iff v.relay_id v.relay_id).1 refl)
      ∙ ends env packet (execute env v s)

-- The commands with these types and payloads.
abbrev pub asked : List (ℕ × List ℕ) → List Command
asked cs = map (λ c. Command.proprietary (c.0 % 256) c.1) cs

commands_of-asked :
    (items : List MeshCommandItem) (cs : List (ℕ × List ℕ))
    → map (λ (i : MeshCommandItem). i.command) items ≡ map some cs
    → commands_of items ≡ asked cs
unfolding commands_of
commands_of-asked [] [] e = refl
commands_of-asked [] (c ∷ cs) e = absurd (cc e)
commands_of-asked (i ∷ items) [] e = absurd (cc e)
commands_of-asked (i ∷ items) (c ∷ cs) e =
    let first : i.command ≡ some c = cc e in
    let rest : map (λ (i : MeshCommandItem). i.command) items ≡ map some cs = cc e in
    rw (first, commands_of-asked items cs rest) refl

module _ {F32 : Type 0} (env : Env F32) where
  -- The state after the execution: the responses, if there are any, are sent as events.
  abbrev pub responded : Result (List Event) × State F32 → State F32
  responded (ok [], s) = s
  responded (ok (e ∷ es), s) = (send_events env (e ∷ es) s).1
  responded (err x, s) = s
  responded (panicked, s) = s
  responded (diverged, s) = s

  resumed : (r : Result (List Event) × State F32) → (resume r (respond env)).1 ≡ responded r
  unfolding respond pure
  resumed (ok [], s) = refl
  resumed (ok (e ∷ es), s) = refl
  resumed (err x, s) = refl
  resumed (panicked, s) = refl
  resumed (diverged, s) = refl

  execute-responded :
      (v : CommandPayload) (s : State F32)
      → (execute env v s).1 ≡ responded (execute_commands env v s)
  unfolding execute ◌>>=◌
  execute-responded v s = resumed (execute_commands env v s)

module _ {F32 : Type 0} (border relay : Env F32) where
  -- What the relay gets of the commands.
  abbrev pub ordered : SystemTime → Bytes4 → List (ℕ × List ℕ) → CommandPayload
  ordered time relay_id cs = record {
    timestamp = CommandPayload.wire_time (pos_part time.secs);
    relay_id = relay_id;
    commands = asked cs;
  }

  -- The commands of the network server reach the relay that they name. If each item has a command, they
  -- fit a mesh packet, and the Border Gateway's clock is not before 1970, the Border Gateway sends exactly
  -- one frame to the mesh. When that relay receives these bytes for the first time, it executes the
  -- commands of the items in their order, with their types cut to a byte and the time to 32 bits of whole
  -- seconds, after adding the packet to its cache, and sends the responses if there are any.
  pub commands_delivered :
      (pl : MeshCommand) (cs : List (ℕ × List ℕ)) (relay_id : Bytes4) (wire : List ℕ)
      (at_relay : UplinkFrame F32) (rx_info : UplinkRxInfo F32) (got : MeshPacket) (s t : State F32)
      → IsBlockCipher border.aes
      → IsMac border.cmac
      → length border.conf.mesh.root_key.bytes ≡ 16
      → 0 < length border.conf.mesh.frequencies
      → SharesMesh border relay
      → border.hex_decode4 pl.relay_id ≡ ok relay_id
      → map (λ (i : MeshCommandItem). i.command) pl.commands ≡ map some cs
      → let time = border.now s.reads in
        let p = command_packet border time relay_id (asked cs) in
        IsSendable p
        → seal border.aes border.cmac (encryption_key border) (signing_key border) p ≡ ok wire
        → at_relay.phy_payload ≡ wire
        → at_relay.rx_info ≡ some rx_info
        → MeshPacket.from_slice wire ≡ ok got
        → Cache.contains payload_cache_eq t.payload_cache.deque (from_packet got) ≡ false
        → relay.relay_id ≡ some relay_id
        → SentOne border wire s (send_mesh_command border pl s).1
          × ((c : Cache.Cache PayloadCache) × ((handle_mesh relay false at_relay t).1
                ≡ responded relay (
                    execute_commands relay
                      (ordered time relay_id cs)
                      (record t { payload_cache = c }))))
  unfolding dispatch command_packet
  commands_delivered pl cs relay_id wire at_relay rx_info got s t cipher mac sixteen some_frequency
        share id given sendable seals arrives received parsed fresh named =
      let time = border.now s.reads in
      let p = command_packet border time relay_id (asked cs) in
      let way =
        transport border.aes cipher (encryption_key border)
          (encryption_key-length border cipher sixteen) border.cmac mac (signing_key border) p
          sendable in
      let wire_is : wire ≡ way.wire = ok_injective (sym seals ∙ way.seals) in
      let got_is : got ≡ way.packet =
        ok_injective (sym parsed ∙ ap MeshPacket.from_slice wire_is ∙ way.reads) in
      let v = ordered time relay_id cs in
      let arrived : MeshPacket = record {
        mhdr = p.mhdr;
        payload = Payload.command v;
        mic = way.packet.mic;
      } in
      let (c, dispatched) =
        fresh_packet relay false at_relay got arrived t (ap MeshPacket.from_slice arrives ∙ parsed)
          (rw (got_is, share.signing, share.cmac) way.validates) fresh
          (rw (got_is, share.encryption, share.aes) way.decrypts) in
      (
        commands_sent border pl relay_id wire s id
            (ap
                (λ l.
                  seal border.aes border.cmac (encryption_key border) (signing_key border)
                    (command_packet border time relay_id l))
                (commands_of-asked pl.commands cs given)
              ∙ seals)
            some_frequency,
        (
          c,
          ap (λ x. x.1) dispatched
              ∙ carried_out relay at_relay rx_info arrived v (record t { payload_cache = c }) refl
                  named received
              ∙ execute-responded relay v (record t { payload_cache = c }),
        ),
      )
