-- ===== src/Packets/MeshPacket.antt =====
-- `MeshPacket`: header, payload and message integrity code. The operations are in `Defs`, what the
-- code accepts in `Mic`, the way of a packet from sender to receiver in `Transport`.
mod Defs
mod Mic
mod Transport
mod Safety
mod Writes
pub use Defs.{MeshPacket, Payload, Mac, IsMac, append_mic, first_byte}
unfoldable pub use Defs.{
  from_slice, to_vec, mic_bytes, encrypt, decrypt, calculate_mic, set_mic, validate_mic,
  decode_payload, payload_to_vec, encrypt_payload, decrypt_payload, mic_eq,
}
pub use Mic.{mic_eq_iff, validate_mic_iff, set_mic_total}
pub use Transport.{IsSendable, IsSendablePayload, arrival, IsTransported, transport}
unfoldable pub use Transport.{seal}
pub use Safety.{from_slice-IsSettled, decrypt-IsSettled, IsPlain, decrypt-IsPlain}
pub use Writes.{to_vec-IsSettled, encrypt-IsSettled, set_mic-IsSettled, validate_mic-IsSettled}
