-- ===== src/Packets/MeshPacket/Transport.antt =====
-- The way of a packet: encrypted, signed and written by the sender, read, checked and decrypted by
-- the receiver.
use chirpstack_gateway_mesh.Common.{
  ℕ, suc, ◌+◌, ◌-◌, ◌≡◌, ◌≤◌, ◌<◌, refl, ap, true, false, ltb, ◌==◌, List, ◌∷◌, ◌++◌, some, length,
  All, arith, length-append, take-length-append, drop-length-append,
}
use chirpstack_gateway_mesh.Common.Int.{pos_part}
use chirpstack_gateway_mesh.Common.Bytes.{Bytes4, to_list}
use chirpstack_gateway_mesh.Common.Result.{Result, ok, ◌>>=◌, map_ok}
use chirpstack_gateway_mesh.Common.Time.{unix_secs}
use chirpstack_gateway_mesh.Aes128.{Aes128Key, BlockCipher, IsBlockCipher}
use chirpstack_gateway_mesh.Packets.PayloadType.{PayloadType}
use chirpstack_gateway_mesh.Packets.Mhdr
use chirpstack_gateway_mesh.Packets.Mhdr.{Mhdr}
use chirpstack_gateway_mesh.Packets.Event
use chirpstack_gateway_mesh.Packets.Command
use chirpstack_gateway_mesh.Packets.UplinkMetadata
use chirpstack_gateway_mesh.Packets.DownlinkMetadata
use chirpstack_gateway_mesh.Packets.UplinkPayload
use chirpstack_gateway_mesh.Packets.DownlinkPayload
use chirpstack_gateway_mesh.Packets.EventPayload
use chirpstack_gateway_mesh.Packets.CommandPayload
use chirpstack_gateway_mesh.Packets.MeshPacket.Defs.{
  MeshPacket, Payload, uplink, downlink, event, command, Mac, IsMac, decode_payload, payload_to_vec,
  encrypt_payload, encrypt, decrypt_payload, decrypt, from_slice, to_vec, set_mic, validate_mic,
}
use chirpstack_gateway_mesh.Packets.MeshPacket.Mic.{
  calculate_mic_total, set_mic_total, validate_mic-calculate_mic,
}

-- Header byte, payload and code are taken apart where they were joined.
from_slice_wire :
    (x : ℕ) (body : List ℕ) (m : Bytes4) (h : Mhdr) (pl : Payload)
    → Mhdr.from_byte x ≡ ok h
    → decode_payload h.payload_type body ≡ ok pl
    → from_slice (x ∷ (body ++ to_list m)) ≡ ok (record { mhdr = h; payload = pl; mic = some m })
unfolding from_slice
from_slice_wire x body m h pl e f =
    let b = body ++ to_list m in
    let len : length b ≡ length body + 4 = length-append body (to_list m) in
    let some_bytes : (suc (length b) == 0) ≡ false = ground arith in
    let enough : ltb (suc (length b)) 5 ≡ false = ground (arith, len) in
    let to_mic : suc (length b) - 4 ≡ suc (length body) = omega (arith, len) in
    let to_body : suc (length b) - 5 ≡ length body = omega (arith, len) in
    rw (some_bytes, enough, e, to_mic, to_body)
      (rw (drop-length-append body (to_list m), take-length-append body (to_list m), f) refl)

-- The sender's steps from a packet to the bytes on the air.
unfoldable pub seal : BlockCipher → Mac → Aes128Key → Aes128Key → MeshPacket → Result (List ℕ)
seal aes cmac encryption_key signing_key p = do
  q ← encrypt aes encryption_key p
  s ← set_mic cmac signing_key q
  to_vec s

-- The packet `p` is sealed as bytes that are read as a packet with a valid code, and that decrypts
-- to `p` with the payload `pl` (and with the code).
pub record IsTransported (aes : BlockCipher) (cmac : Mac) (encryption_key signing_key : Aes128Key)
    (p : MeshPacket) (pl : Payload) : Type 0 where
  pub wire : List ℕ
  pub seals : seal aes cmac encryption_key signing_key p ≡ ok wire
  pub packet : MeshPacket
  pub reads : from_slice wire ≡ ok packet
  pub validates : validate_mic cmac signing_key packet ≡ ok true
  pub decrypts :
      decrypt aes encryption_key packet
      ≡ ok (record { mhdr = p.mhdr; payload = pl; mic = packet.mic })

module _ (aes : BlockCipher) (cmac : Mac) (mac : IsMac cmac)
    (encryption_key signing_key : Aes128Key) where
  transport_step :
      (p : MeshPacket) (q pending pl : Payload) (x : ℕ) (body : List ℕ)
      → Mhdr.to_byte p.mhdr ≡ ok x
      → Mhdr.from_byte x ≡ ok p.mhdr
      → encrypt_payload aes encryption_key p.payload ≡ ok q
      → payload_to_vec q ≡ ok body
      → decode_payload p.mhdr.payload_type body ≡ ok pending
      → payload_to_vec pending ≡ ok body
      → decrypt_payload aes encryption_key pending ≡ ok pl
      → IsTransported aes cmac encryption_key signing_key p pl
  unfolding seal encrypt to_vec decrypt
  transport_step p q pending pl x body hx hx' enc writes reads rewrites dec =
      let (m, mic) = calculate_mic_total cmac signing_key mac x body in
      let sent : MeshPacket = record p { payload = q } in
      let got : MeshPacket = record { mhdr = p.mhdr; payload = pending; mic = some m } in
      record {
        wire = x ∷ (body ++ to_list m);
        seals =
            rw (enc, set_mic_total cmac signing_key sent m (mic sent hx writes))
              (rw (hx, writes) refl);
        packet = got;
        reads = from_slice_wire x body m p.mhdr pending hx' reads;
        validates =
            (validate_mic-calculate_mic cmac signing_key got).1 (m, refl, mic got hx rewrites);
        decrypts = rw dec refl;
      }

-- What can be sent: a hop count from 1 to 8, the header's type that of the payload, and contents
-- that fit their fields.
abbrev pub IsSendablePayload : PayloadType → Payload → Type 0
IsSendablePayload t (uplink v) =
    (t ≡ PayloadType.uplink) × UplinkMetadata.InRange v.metadata × (v.metadata.channel < 256)
IsSendablePayload t (downlink v) = (t ≡ PayloadType.downlink) × DownlinkMetadata.InRange v.metadata
IsSendablePayload t (event v) =
    (t ≡ PayloadType.event)
    × (unix_secs v.timestamp ≡ ok (pos_part v.timestamp.secs))
    × All Event.IsEncodable v.events
IsSendablePayload t (command v) =
    (t ≡ PayloadType.command)
    × (unix_secs v.timestamp ≡ ok (pos_part v.timestamp.secs))
    × All Command.IsEncodable v.commands

pub record IsSendable (p : MeshPacket) : Type 0 where
  pub hops_min : 0 < p.mhdr.hop_count
  pub hops_max : p.mhdr.hop_count ≤ 8
  pub fits : IsSendablePayload p.mhdr.payload_type p.payload

-- What arrives of a payload: the time of events and commands is cut to 32 bits of whole seconds.
abbrev pub arrival : Payload → Payload
arrival (uplink v) = uplink v
arrival (downlink v) = downlink v
arrival (event v) = event (EventPayload.received v (pos_part v.timestamp.secs))
arrival (command v) = command (CommandPayload.received v (pos_part v.timestamp.secs))

-- The payload's own way: encrypted, written, read, written again and decrypted.
record IsCarried (aes : BlockCipher) (key : Aes128Key) (t : PayloadType) (pl arrived : Payload)
    : Type 0 where
  sent : Payload
  encrypts : encrypt_payload aes key pl ≡ ok sent
  body : List ℕ
  writes : payload_to_vec sent ≡ ok body
  got : Payload
  reads : decode_payload t body ≡ ok got
  rewrites : payload_to_vec got ≡ ok body
  decrypts : decrypt_payload aes key got ≡ ok arrived

module _ (aes : BlockCipher) (cipher : IsBlockCipher aes) (key : Aes128Key)
    (sixteen : length key.bytes ≡ 16) where
  carry :
      (t : PayloadType) (pl : Payload)
      → IsSendablePayload t pl
      → IsCarried aes key t pl (arrival pl)
  unfolding encrypt_payload payload_to_vec decode_payload decrypt_payload
  carry t (uplink v) h =
      let (b, writes, reads) = UplinkPayload.from_slice-to_vec v h.1 h.2 in
      record {
        sent = uplink v;
        encrypts = refl;
        body = b;
        writes = writes;
        got = uplink v;
        reads = rw h.0 (ap (map_ok uplink) reads);
        rewrites = writes;
        decrypts = refl;
      }
  carry t (downlink v) h =
      let (b, writes, reads) = DownlinkPayload.from_slice-to_vec v h.1 in
      record {
        sent = downlink v;
        encrypts = refl;
        body = b;
        writes = writes;
        got = downlink v;
        reads = rw h.0 (ap (map_ok downlink) reads);
        rewrites = writes;
        decrypts = refl;
      }
  carry t (event v) h =
      let (q, enc, d) =
        EventPayload.decrypt-encrypt aes cipher key sixteen v (pos_part v.timestamp.secs) h.1 h.2 in
      record {
        sent = event q;
        encrypts = ap (map_ok event) enc;
        body = d.wire;
        writes = d.writes;
        got = event d.pending;
        reads = rw h.0 (ap (map_ok event) d.reads);
        rewrites = d.rewrites;
        decrypts = ap (map_ok event) d.decrypts;
      }
  carry t (command v) h =
      let (q, enc, d) =
        CommandPayload.decrypt-encrypt aes cipher key sixteen v (pos_part v.timestamp.secs) h.1
          h.2 in
      record {
        sent = command q;
        encrypts = ap (map_ok command) enc;
        body = d.wire;
        writes = d.writes;
        got = command d.pending;
        reads = rw h.0 (ap (map_ok command) d.reads);
        rewrites = d.rewrites;
        decrypts = ap (map_ok command) d.decrypts;
      }

  -- A packet that can be sent is sealed as bytes that every receiver with the same keys reads,
  -- accepts by its code, and decrypts to the same header and payload (times in whole seconds).
  pub transport :
      (cmac : Mac)
      → IsMac cmac
      → (signing_key : Aes128Key) (p : MeshPacket) → IsSendable p
      → IsTransported aes cmac key signing_key p (arrival p.payload)
  transport cmac mac signing_key p h =
      let c = carry p.mhdr.payload_type p.payload h.fits in
      let (x, hx, byte) = Mhdr.to_byte_total p.mhdr h.hops_min h.hops_max in
      transport_step aes cmac mac key signing_key p c.sent c.got (arrival p.payload) x c.body hx
        ((Mhdr.to_byte-from_byte_iff p.mhdr x byte).0 hx) c.encrypts c.writes c.reads c.rewrites
        c.decrypts
