-- ===== src/Packets/MeshPacket/Writes.antt =====
-- Encoding, encrypting and signing a mesh packet returns, whatever the packet.
use chirpstack_gateway_mesh.Common.{
  ℕ, List, ◌∷◌, Option, none, some, arith, take, length, ◌≡◌, is_empty, length-take,
}
use chirpstack_gateway_mesh.Common.Bytes.{Bytes4, copy4-IsSettled}
use chirpstack_gateway_mesh.Common.Result.{
  IsSettled, IsSettled->>=, IsSettled-reject_if, IsSettled-map_ok, IsSettled-if,
}
use chirpstack_gateway_mesh.Common.Time.{unix_secs-IsSettled}
use chirpstack_gateway_mesh.Aes128.{Aes128Key, BlockCipher}
use chirpstack_gateway_mesh.Packets.Crypt.{encrypt_events_commands-IsSettled}
use chirpstack_gateway_mesh.Packets.Items.{encode_items-IsSettled}
use chirpstack_gateway_mesh.Packets.Freq.{encode_freq}
use chirpstack_gateway_mesh.Packets.MeshPacket.Defs.{
  MeshPacket, Payload, uplink, downlink, event, command, Mac, IsMac, payload_to_vec,
  encrypt_payload, encrypt, to_vec, mic_bytes, calculate_mic, set_mic, check_mic, validate_mic,
  append_mic,
}
use chirpstack_gateway_mesh.Packets.Mhdr
use chirpstack_gateway_mesh.Packets.Mhdr.{Mhdr}
use chirpstack_gateway_mesh.Packets.Event
use chirpstack_gateway_mesh.Packets.Event.{Event}
use chirpstack_gateway_mesh.Packets.Command
use chirpstack_gateway_mesh.Packets.Command.{Command}
use chirpstack_gateway_mesh.Packets.HeartbeatPayload
use chirpstack_gateway_mesh.Packets.UplinkMetadata
use chirpstack_gateway_mesh.Packets.UplinkMetadata.{UplinkMetadata}
use chirpstack_gateway_mesh.Packets.DownlinkMetadata
use chirpstack_gateway_mesh.Packets.DownlinkMetadata.{DownlinkMetadata}
use chirpstack_gateway_mesh.Packets.UplinkPayload
use chirpstack_gateway_mesh.Packets.DownlinkPayload
use chirpstack_gateway_mesh.Packets.EventPayload
use chirpstack_gateway_mesh.Packets.CommandPayload

uplink-IsSettled : (v : UplinkPayload.UplinkPayload) → IsSettled (UplinkPayload.to_vec v)
unfolding UplinkPayload.to_vec UplinkMetadata.to_bytes
uplink-IsSettled v = ground arith

frequency-IsSettled : (f : ℕ) → IsSettled (encode_freq f)
unfolding encode_freq
frequency-IsSettled f = ground arith

downlink-IsSettled : (v : DownlinkPayload.DownlinkPayload) → IsSettled (DownlinkPayload.to_vec v)
unfolding DownlinkPayload.to_vec DownlinkMetadata.to_bytes
downlink-IsSettled v = ground (arith, frequency-IsSettled v.metadata.frequency)

mhdr-IsSettled : (h : Mhdr) → IsSettled (Mhdr.to_byte h)
unfolding Mhdr.to_byte
mhdr-IsSettled h = ground arith

event_item-IsSettled : (e : Event) → IsSettled (Event.encode e)
unfolding Event.encode
event_item-IsSettled (Event.encrypted v) = tt
event_item-IsSettled (Event.heartbeat v) =
    IsSettled->>= _ _ (HeartbeatPayload.to_vec-IsSettled v) (λ b. tt)
event_item-IsSettled (Event.proprietary t v) = tt

command_item-IsSettled : (c : Command) → IsSettled (Command.encode c)
unfolding Command.encode
command_item-IsSettled (Command.encrypted v) = tt
command_item-IsSettled (Command.proprietary t v) = tt

payload-IsSettled : (pl : Payload) → IsSettled (payload_to_vec pl)
unfolding payload_to_vec EventPayload.to_vec CommandPayload.to_vec
payload-IsSettled (uplink v) = uplink-IsSettled v
payload-IsSettled (downlink v) = downlink-IsSettled v
payload-IsSettled (event v) = IsSettled->>= _ _ (unix_secs-IsSettled v.timestamp) λ secs.
    IsSettled->>= _ _ (encode_items-IsSettled Event.encode event_item-IsSettled v.events) λ b. tt
payload-IsSettled (command v) = IsSettled->>= _ _ (unix_secs-IsSettled v.timestamp) λ secs.
    IsSettled->>= _ _ (encode_items-IsSettled Command.encode command_item-IsSettled v.commands)
      λ b. tt

append_mic-IsSettled : (b : List ℕ) (o : Option Bytes4) → IsSettled (append_mic b o)
append_mic-IsSettled b none = tt
append_mic-IsSettled b (some m) = tt

-- Writing a packet returns: it neither panics nor hangs, whatever the packet.
pub to_vec-IsSettled : (p : MeshPacket) → IsSettled (to_vec p)
unfolding to_vec
to_vec-IsSettled p =
    IsSettled->>= _ _ (mhdr-IsSettled p.mhdr)
      λ x. IsSettled->>= _ _ (payload-IsSettled p.payload) λ b. append_mic-IsSettled (x ∷ b) p.mic

module _ (aes : BlockCipher) (key : Aes128Key) where
  encrypt_payload-IsSettled : (pl : Payload) → IsSettled (encrypt_payload aes key pl)
  unfolding encrypt_payload EventPayload.encrypt CommandPayload.encrypt
  encrypt_payload-IsSettled (uplink v) = tt
  encrypt_payload-IsSettled (downlink v) = tt
  encrypt_payload-IsSettled (event v) = IsSettled-map_ok _ _ (
      IsSettled-if (is_empty v.events) _ _ tt (
        IsSettled->>= _ _ (encode_items-IsSettled Event.encode event_item-IsSettled v.events)
          λ b. IsSettled->>= _ _ (encrypt_events_commands-IsSettled aes key _ _ _ b) λ c. tt))
  encrypt_payload-IsSettled (command v) = IsSettled-map_ok _ _ (
      IsSettled-if (is_empty v.commands) _ _ tt (
        IsSettled->>= _ _ (encode_items-IsSettled Command.encode command_item-IsSettled v.commands)
          λ b. IsSettled->>= _ _ (encrypt_events_commands-IsSettled aes key _ _ _ b) λ c. tt))

  pub encrypt-IsSettled : (p : MeshPacket) → IsSettled (encrypt aes key p)
  unfolding encrypt
  encrypt-IsSettled p = IsSettled-map_ok _ _ (encrypt_payload-IsSettled p.payload)

module _ (cmac : Mac) (mac : IsMac cmac) (key : Aes128Key) where
  calculate_mic-IsSettled : (p : MeshPacket) → IsSettled (calculate_mic cmac key p)
  unfolding calculate_mic mic_bytes
  calculate_mic-IsSettled p =
      IsSettled->>= _ _
        (IsSettled->>= _ _ (mhdr-IsSettled p.mhdr)
          λ x. IsSettled->>= _ _ (payload-IsSettled p.payload) λ b. tt)
        λ b.
          IsSettled->>= _ _ (IsSettled-reject_if _ _)
            λ u. copy4-IsSettled _ (four (cmac key.bytes b) (mac key.bytes b).0)
    where
      four : (c : List ℕ) → length c ≡ 16 → length (take 4 c) ≡ 4
      four c e = omega (arith, e, length-take 4 c)

  pub set_mic-IsSettled : (p : MeshPacket) → IsSettled (set_mic cmac key p)
  unfolding set_mic
  set_mic-IsSettled p = IsSettled->>= _ _ (calculate_mic-IsSettled p) (λ m. tt)

  check_mic-IsSettled : (p : MeshPacket) (o : Option Bytes4) → IsSettled (check_mic cmac key p o)
  unfolding check_mic
  check_mic-IsSettled p none = tt
  check_mic-IsSettled p (some m) = IsSettled-map_ok _ _ (calculate_mic-IsSettled p)

  pub validate_mic-IsSettled : (p : MeshPacket) → IsSettled (validate_mic cmac key p)
  unfolding validate_mic
  validate_mic-IsSettled p = check_mic-IsSettled p p.mic
