-- ===== src/Packets/MeshPacket/Defs.antt =====
-- The operations of `MeshPacket`. The CMAC is the `cmac` crate's, and enters as a parameter.
use chirpstack_gateway_mesh.Common.{
  ℕ, ◌-◌, ◌≡◌, ◌&&◌, Bool, List, [], ◌∷◌, ◌++◌, Option, none, some, ◌==◌, ltb, length, take, drop,
}
use chirpstack_gateway_mesh.Common.Bytes.{Bytes4, to_list, copy4, IsBytes}
use chirpstack_gateway_mesh.Common.Result.{
  Result, ok, err, panicked, ◌>>=◌, ◌>>◌, reject_if, map_ok, input_is_empty, not_enough_bytes,
  mic_is_none, cmac_too_short,
}
use chirpstack_gateway_mesh.Aes128.{Aes128Key, BlockCipher}
use chirpstack_gateway_mesh.Packets.PayloadType.{PayloadType}
use chirpstack_gateway_mesh.Packets.Mhdr
use chirpstack_gateway_mesh.Packets.Mhdr.{Mhdr}
use chirpstack_gateway_mesh.Packets.UplinkPayload
use chirpstack_gateway_mesh.Packets.UplinkPayload.{UplinkPayload}
use chirpstack_gateway_mesh.Packets.DownlinkPayload
use chirpstack_gateway_mesh.Packets.DownlinkPayload.{DownlinkPayload}
use chirpstack_gateway_mesh.Packets.EventPayload
use chirpstack_gateway_mesh.Packets.EventPayload.{EventPayload}
use chirpstack_gateway_mesh.Packets.CommandPayload
use chirpstack_gateway_mesh.Packets.CommandPayload.{CommandPayload}

pub data Payload : Type 0 where
  uplink : UplinkPayload → Payload
  downlink : DownlinkPayload → Payload
  event : EventPayload → Payload
  command : CommandPayload → Payload

pub record MeshPacket : Type 0 where
  pub mhdr : Mhdr
  pub payload : Payload
  pub mic : Option Bytes4

-- `b[0]`.
abbrev pub first_byte : List ℕ → Result ℕ
first_byte [] = panicked
first_byte (x ∷ b) = ok x

-- The payload of the type that the header names.
unfoldable pub decode_payload : PayloadType → List ℕ → Result Payload
decode_payload PayloadType.uplink b = map_ok uplink (UplinkPayload.from_slice b)
decode_payload PayloadType.downlink b = map_ok downlink (DownlinkPayload.from_slice b)
decode_payload PayloadType.event b = map_ok event (EventPayload.from_slice b)
decode_payload PayloadType.command b = map_ok command (CommandPayload.from_slice b)

unfoldable pub from_slice : List ℕ → Result MeshPacket
from_slice b = do
  reject_if (length b == 0) input_is_empty
  reject_if (ltb (length b) 5) not_enough_bytes
  x ← first_byte b
  mhdr ← Mhdr.from_byte x
  mic ← copy4 (drop (length b - 4) b)
  payload ← decode_payload mhdr.payload_type (take (length b - 5) (drop 1 b))
  ok (record { mhdr = mhdr; payload = payload; mic = some mic })

unfoldable pub payload_to_vec : Payload → Result (List ℕ)
payload_to_vec (uplink v) = UplinkPayload.to_vec v
payload_to_vec (downlink v) = DownlinkPayload.to_vec v
payload_to_vec (event v) = EventPayload.to_vec v
payload_to_vec (command v) = CommandPayload.to_vec v

-- The header and the payload, which the code covers.
unfoldable pub mic_bytes : MeshPacket → Result (List ℕ)
mic_bytes p = do x ← Mhdr.to_byte p.mhdr; b ← payload_to_vec p.payload; ok (x ∷ b)

-- `if let Some(mic) = self.mic`.
abbrev pub append_mic : List ℕ → Option Bytes4 → Result (List ℕ)
append_mic b none = err mic_is_none
append_mic b (some mic) = ok (b ++ to_list mic)

unfoldable pub to_vec : MeshPacket → Result (List ℕ)
to_vec p = do x ← Mhdr.to_byte p.mhdr; b ← payload_to_vec p.payload; append_mic (x ∷ b) p.mic

module _ (aes : BlockCipher) where
  unfoldable pub encrypt_payload : Aes128Key → Payload → Result Payload
  encrypt_payload key (uplink v) = ok (uplink v)
  encrypt_payload key (downlink v) = ok (downlink v)
  encrypt_payload key (event v) = map_ok event (EventPayload.encrypt aes key v)
  encrypt_payload key (command v) = map_ok command (CommandPayload.encrypt aes key v)

  unfoldable pub encrypt : Aes128Key → MeshPacket → Result MeshPacket
  encrypt key p = map_ok (λ pl. record p { payload = pl }) (encrypt_payload key p.payload)

  unfoldable pub decrypt_payload : Aes128Key → Payload → Result Payload
  decrypt_payload key (uplink v) = ok (uplink v)
  decrypt_payload key (downlink v) = ok (downlink v)
  decrypt_payload key (event v) = map_ok event (EventPayload.decrypt aes key v)
  decrypt_payload key (command v) = map_ok command (CommandPayload.decrypt aes key v)

  unfoldable pub decrypt : Aes128Key → MeshPacket → Result MeshPacket
  decrypt key p = map_ok (λ pl. record p { payload = pl }) (decrypt_payload key p.payload)

-- `Cmac::<Aes128>` over a key and a message.
abbrev pub Mac : Type 0
Mac = List ℕ → List ℕ → List ℕ

-- The code of a message has 16 bytes.
abbrev pub IsMac : Mac → Type 0
IsMac cmac = (key message : List ℕ) → (length (cmac key message) ≡ 16) × IsBytes (cmac key message)

-- `mic == calculated`, of arrays.
unfoldable pub mic_eq : Bytes4 → Bytes4 → Bool
mic_eq a b = (a.b0 == b.b0) && (a.b1 == b.b1) && (a.b2 == b.b2) && (a.b3 == b.b3)

module _ (cmac : Mac) (key : Aes128Key) where
  unfoldable pub calculate_mic : MeshPacket → Result Bytes4
  calculate_mic p = do
    b ← mic_bytes p
    let cmac_f = cmac key.bytes b
    reject_if (ltb (length cmac_f) 4) cmac_too_short
    copy4 (take 4 cmac_f)

  unfoldable pub set_mic : MeshPacket → Result MeshPacket
  set_mic p = do mic ← calculate_mic p; ok (record p { mic = some mic })

  unfoldable pub check_mic : MeshPacket → Option Bytes4 → Result Bool
  check_mic p none = err mic_is_none
  check_mic p (some mic) = map_ok (mic_eq mic) (calculate_mic p)

  unfoldable pub validate_mic : MeshPacket → Result Bool
  unfolding check_mic mic_eq
  validate_mic p = check_mic p p.mic
