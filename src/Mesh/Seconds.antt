-- ===== src/Mesh/Seconds.antt =====
-- Events and commands are told apart by their second: of two in one second, receivers take the
-- second one for a repetition.
use chirpstack_gateway_mesh.Common.{ℕ, ◌≡◌, sym, ◌∙◌, ap, Bool, true, List, [], length}
use chirpstack_gateway_mesh.Common.Int.{pos_part}
use chirpstack_gateway_mesh.Common.Bytes.{Bytes4}
use chirpstack_gateway_mesh.Common.Result.{ok, ok_injective, >>=-eq-ok}
use chirpstack_gateway_mesh.Aes128.{Aes128Key, BlockCipher, IsBlockCipher}
use chirpstack_gateway_mesh.Cache.PayloadCache.{from_packet, key_of}
use chirpstack_gateway_mesh.Packets.Event.{Event}
use chirpstack_gateway_mesh.Packets.EventPayload
use chirpstack_gateway_mesh.Packets.CommandPayload
use chirpstack_gateway_mesh.Packets.PayloadType.{PayloadType}
use chirpstack_gateway_mesh.Packets.MeshPacket
use chirpstack_gateway_mesh.Packets.MeshPacket.{
  MeshPacket, Payload, IsMac, IsSendable, seal, transport, arrival,
}
use chirpstack_gateway_mesh.Gw.{UplinkFrame}
use chirpstack_gateway_mesh.Runtime.{State, Env}
use chirpstack_gateway_mesh.Events.{event_packet}
use chirpstack_gateway_mesh.Mesh.Send.{signing_key, encryption_key}
use chirpstack_gateway_mesh.Mesh.Handle.{handle_mesh}
use chirpstack_gateway_mesh.Mesh.Forward.{encryption_key-length}
use chirpstack_gateway_mesh.Mesh.Deliver.{SharesMesh}
use chirpstack_gateway_mesh.Mesh.Replay.{same_key_dropped}

-- Decryption does not touch what the key is made of.
key_of-decrypt_payload :
    (aes : BlockCipher) (key : Aes128Key) (t : PayloadType) (pl : Payload) {pl' : Payload}
    → MeshPacket.decrypt_payload aes key pl ≡ ok pl'
    → key_of t pl ≡ key_of t pl'
unfolding MeshPacket.decrypt_payload key_of EventPayload.decrypt CommandPayload.decrypt
key_of-decrypt_payload aes key t (Payload.uplink v) e = ap (key_of t) (ok_injective e)
key_of-decrypt_payload aes key t (Payload.downlink v) e = ap (key_of t) (ok_injective e)
key_of-decrypt_payload aes key t (Payload.event v) e =
    let (w, d, r) = >>=-eq-ok (EventPayload.decrypt aes key v) _ e in
    let (items, f, q) =
      >>=-eq-ok (EventPayload.decrypt_items aes key v.timestamp v.relay_id v.events)
        (λ l. ok (record v { events = l })) d in
    ap (λ w. key_of t (Payload.event w)) (ok_injective q) ∙ ap (key_of t) (ok_injective r)
key_of-decrypt_payload aes key t (Payload.command v) e =
    let (w, d, r) = >>=-eq-ok (CommandPayload.decrypt aes key v) _ e in
    let (items, f, q) =
      >>=-eq-ok (CommandPayload.decrypt_items aes key v.timestamp v.relay_id v.commands)
        (λ l. ok (record v { commands = l })) d in
    ap (λ w. key_of t (Payload.command w)) (ok_injective q) ∙ ap (key_of t) (ok_injective r)

key_of-decrypt :
    (aes : BlockCipher) (key : Aes128Key) (got : MeshPacket) {p : MeshPacket}
    → MeshPacket.decrypt aes key got ≡ ok p
    → from_packet got ≡ from_packet p
unfolding MeshPacket.decrypt from_packet
key_of-decrypt aes key got e =
    let (pl, d, r) = >>=-eq-ok (MeshPacket.decrypt_payload aes key got.payload) _ e in
    key_of-decrypt_payload aes key got.mhdr.payload_type got.payload d
    ∙ ap (λ p. key_of p.mhdr.payload_type p.payload) (ok_injective r)

module _ {F32 : Type 0} (sender receiver : Env F32) (cipher : IsBlockCipher sender.aes)
    (mac : IsMac sender.cmac) (sixteen : length sender.conf.mesh.root_key.bytes ≡ 16)
    (share : SharesMesh sender receiver) where
  -- What a receiver makes of the bytes of a packet: it accepts them, and the key is that of the
  -- packet as it arrives.
  record Arrives (p got : MeshPacket) : Type 0 where
    validates : MeshPacket.validate_mic receiver.cmac (signing_key receiver) got ≡ ok true
    has_key : from_packet got ≡ key_of p.mhdr.payload_type (arrival p.payload)

  arrived :
      (p got : MeshPacket) (wire : List ℕ)
      → IsSendable p
      → seal sender.aes sender.cmac (encryption_key sender) (signing_key sender) p ≡ ok wire
      → MeshPacket.from_slice wire ≡ ok got
      → Arrives p got
  unfolding from_packet
  arrived p got wire sendable seals parsed =
      let way =
        transport sender.aes cipher (encryption_key sender)
          (encryption_key-length sender cipher sixteen) sender.cmac mac (signing_key sender) p
          sendable in
      let wire_is : wire ≡ way.wire = ok_injective (sym seals ∙ way.seals) in
      let got_is : got ≡ way.packet =
        ok_injective (sym parsed ∙ ap MeshPacket.from_slice wire_is ∙ way.reads) in
      record {
        validates = rw (got_is, share.signing, share.cmac) way.validates;
        has_key =
            ap from_packet got_is
            ∙ key_of-decrypt sender.aes (encryption_key sender) way.packet way.decrypts;
      }

  -- A packet that arrives after one with the same key is dropped.
  same_key_lost :
      (p p' : MeshPacket) (wire wire' : List ℕ) (got got' : MeshPacket) (b : Bool)
      (pl pl' : UplinkFrame F32) (t : State F32)
      → IsSendable p
      → IsSendable p'
      → seal sender.aes sender.cmac (encryption_key sender) (signing_key sender) p ≡ ok wire
      → seal sender.aes sender.cmac (encryption_key sender) (signing_key sender) p' ≡ ok wire'
      → pl.phy_payload ≡ wire
      → pl'.phy_payload ≡ wire'
      → MeshPacket.from_slice wire ≡ ok got
      → MeshPacket.from_slice wire' ≡ ok got'
      → key_of p'.mhdr.payload_type (arrival p'.payload)
        ≡ key_of p.mhdr.payload_type (arrival p.payload)
      → let t' = (handle_mesh receiver b pl t).1 in handle_mesh receiver b pl' t' ≡ (ok tt, t')
  same_key_lost p p' wire wire' got got' b pl pl' t sendable sendable' seals seals' arrives arrives'
        parsed parsed' same =
      let a = arrived p got wire sendable seals parsed in
      let a' = arrived p' got' wire' sendable' seals' parsed' in
      same_key_dropped receiver b b pl pl' got got' t (ap MeshPacket.from_slice arrives ∙ parsed)
        a.validates (ap MeshPacket.from_slice arrives' ∙ parsed') a'.validates
        (a'.has_key ∙ same ∙ sym a.has_key)

  -- Of two reports that a relay sends in the same second, receivers drop the second, whatever its events
  -- are: a gateway of the mesh that has received the first does nothing when the second arrives, though
  -- both are sendable packets with correct codes.
  pub same_second_lost :
      (events events' : List Event) (relay_id : Bytes4) (wire wire' : List ℕ)
      (got got' : MeshPacket) (b : Bool) (pl pl' : UplinkFrame F32) (s s' t : State F32)
      → pos_part (sender.now s'.reads).secs ≡ pos_part (sender.now s.reads).secs
      → let p = event_packet sender (sender.now s.reads) relay_id events in
        let p' = event_packet sender (sender.now s'.reads) relay_id events' in
        IsSendable p
        → IsSendable p'
        → seal sender.aes sender.cmac (encryption_key sender) (signing_key sender) p ≡ ok wire
        → seal sender.aes sender.cmac (encryption_key sender) (signing_key sender) p' ≡ ok wire'
        → pl.phy_payload ≡ wire
        → pl'.phy_payload ≡ wire'
        → MeshPacket.from_slice wire ≡ ok got
        → MeshPacket.from_slice wire' ≡ ok got'
        → let t' = (handle_mesh receiver b pl t).1 in handle_mesh receiver b pl' t' ≡ (ok tt, t')
  unfolding event_packet key_of
  same_second_lost events events' relay_id wire wire' got got' b pl pl' s s' t same sendable
        sendable' seals seals' arrives arrives' parsed parsed' =
      same_key_lost (event_packet sender (sender.now s.reads) relay_id events)
        (event_packet sender (sender.now s'.reads) relay_id events') wire wire' got got' b pl pl' t
        sendable sendable' seals seals' arrives arrives' parsed parsed'
        (ap
          (λ n. key_of PayloadType.event (
            Payload.event
              (record { timestamp = EventPayload.wire_time n; relay_id = relay_id; events = [] })))
          same)
