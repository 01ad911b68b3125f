-- ===== src/Packets/MeshPacket/Safety.antt =====
-- The code of a mesh packet returns on every input, and a decrypted packet holds no ciphertext.
use chirpstack_gateway_mesh.Common.{
  ℕ, suc, ◌-◌, ◌≡◌, List, [], ◌∷◌, ◌==◌, ltb, length, All, arith, drop, length-drop, Bool-cases,
  inl, inr, false,
}
use chirpstack_gateway_mesh.Common.Bytes.{copy4, copy4-IsSettled}
use chirpstack_gateway_mesh.Common.Result.{
  ok, >>=-eq-ok, ok_injective, reject_if, IsSettled, IsSettled->>=, IsSettled-reject_if,
  input_is_empty, IsSettled-map_ok,
}
use chirpstack_gateway_mesh.Aes128.{Aes128Key, BlockCipher}
use chirpstack_gateway_mesh.Packets.PayloadType.{PayloadType}
use chirpstack_gateway_mesh.Packets.Mhdr
use chirpstack_gateway_mesh.Packets.Mhdr.{Mhdr}
use chirpstack_gateway_mesh.Packets.Event
use chirpstack_gateway_mesh.Packets.Command
use chirpstack_gateway_mesh.Packets.UplinkPayload
use chirpstack_gateway_mesh.Packets.DownlinkPayload
use chirpstack_gateway_mesh.Packets.EventPayload
use chirpstack_gateway_mesh.Packets.CommandPayload
use chirpstack_gateway_mesh.Packets.MeshPacket.Defs.{
  MeshPacket, Payload, uplink, downlink, event, command, decode_payload, from_slice,
  decrypt_payload, decrypt,
}
use mathlib.Core.Path.{subst}

decode_payload-IsSettled : (t : PayloadType) (b : List ℕ) → IsSettled (decode_payload t b)
unfolding decode_payload
decode_payload-IsSettled PayloadType.uplink b =
    IsSettled-map_ok uplink (UplinkPayload.from_slice b) (UplinkPayload.from_slice-IsSettled b)
decode_payload-IsSettled PayloadType.downlink b =
    IsSettled-map_ok downlink (DownlinkPayload.from_slice b)
      (DownlinkPayload.from_slice-IsSettled b)
decode_payload-IsSettled PayloadType.event b =
    IsSettled-map_ok event (EventPayload.from_slice b) (EventPayload.from_slice-IsSettled b)
decode_payload-IsSettled PayloadType.command b =
    IsSettled-map_ok command (CommandPayload.from_slice b) (CommandPayload.from_slice-IsSettled b)

-- No bytes make the parser panic or hang: they are read, or refused by an error.
pub from_slice-IsSettled : (b : List ℕ) → IsSettled (from_slice b)
unfolding from_slice
from_slice-IsSettled [] = tt
from_slice-IsSettled (x ∷ b) = elim (Bool-cases (ltb (suc (length b)) 5)) [
  | inl short ↦ rw short (
      IsSettled->>= (reject_if (suc (length b) == 0) input_is_empty) _ (IsSettled-reject_if _ _)
        (λ u. tt))
  | inr long ↦ rw long (
      IsSettled->>= (reject_if (suc (length b) == 0) input_is_empty) _ (IsSettled-reject_if _ _)
        (λ u. IsSettled->>= (Mhdr.from_byte x) _ (Mhdr.from_byte-IsSettled x) (λ h.
          IsSettled->>= (copy4 (drop (suc (length b) - 4) (x ∷ b))) _
            (copy4-IsSettled _ (tail_length b long))
            (λ m. IsSettled-map_ok _ _ (decode_payload-IsSettled h.payload_type _)))))
]
  where
    tail_length :
        (b : List ℕ)
        → ltb (suc (length b)) 5 ≡ false
        → length (drop (suc (length b) - 4) (x ∷ b)) ≡ 4
    tail_length b long = ground (arith, length-drop (suc (length b) - 4) (x ∷ b))

-- A payload with no ciphertext.
abbrev pub IsPlain : Payload → Type 0
IsPlain (uplink v) = Unit
IsPlain (downlink v) = Unit
IsPlain (event v) = All Event.IsPlain v.events
IsPlain (command v) = All Command.IsPlain v.commands

module _ (aes : BlockCipher) (key : Aes128Key) where
  decrypt_payload-IsSettled : (pl : Payload) → IsSettled (decrypt_payload aes key pl)
  unfolding decrypt_payload
  decrypt_payload-IsSettled (uplink v) = tt
  decrypt_payload-IsSettled (downlink v) = tt
  decrypt_payload-IsSettled (event v) =
      IsSettled-map_ok event (EventPayload.decrypt aes key v)
        (EventPayload.decrypt-IsSettled aes key v)
  decrypt_payload-IsSettled (command v) =
      IsSettled-map_ok command (CommandPayload.decrypt aes key v)
        (CommandPayload.decrypt-IsSettled aes key v)

  -- Decryption of a packet returns: it neither panics nor hangs, whatever the packet and the key.
  pub decrypt-IsSettled : (p : MeshPacket) → IsSettled (decrypt aes key p)
  unfolding decrypt
  decrypt-IsSettled p =
      IsSettled-map_ok (λ pl. record p { payload = pl }) (decrypt_payload aes key p.payload)
        (decrypt_payload-IsSettled p.payload)

  decrypt_payload-IsPlain :
      (pl : Payload) {q : Payload} → decrypt_payload aes key pl ≡ ok q → IsPlain q
  unfolding decrypt_payload
  decrypt_payload-IsPlain (uplink v) e = subst IsPlain (ok_injective e) tt
  decrypt_payload-IsPlain (downlink v) e = subst IsPlain (ok_injective e) tt
  decrypt_payload-IsPlain (event v) e =
      let (w, first, second) = >>=-eq-ok (EventPayload.decrypt aes key v) (λ w. ok (event w)) e in
      subst IsPlain (ok_injective second) (EventPayload.decrypt-IsPlain aes key v first).0
  decrypt_payload-IsPlain (command v) e =
      let (w, first, second) =
        >>=-eq-ok (CommandPayload.decrypt aes key v) (λ w. ok (command w)) e in
      subst IsPlain (ok_injective second) (CommandPayload.decrypt-IsPlain aes key v first).0

  -- After a successful decryption no event and no command is ciphertext.
  pub decrypt-IsPlain :
      (p : MeshPacket) {q : MeshPacket} → decrypt aes key p ≡ ok q → IsPlain q.payload
  unfolding decrypt
  decrypt-IsPlain p e =
      let (pl, first, second) =
        >>=-eq-ok (decrypt_payload aes key p.payload) (λ pl. ok (record p { payload = pl })) e in
      subst (λ q. IsPlain q.payload) (ok_injective second) (decrypt_payload-IsPlain p.payload first)
