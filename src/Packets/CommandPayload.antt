-- ===== src/Packets/CommandPayload.antt =====
-- `CommandPayload`: a timestamp, the identifier of the addressed relay, and its commands. The codec
-- and the encryption are in `Defs`, the round trip is in `Codec`.
mod Slice
mod Defs
mod Codec
pub use Slice.{CommandPayload}
unfoldable pub use Defs.{from_slice, to_vec, encrypt, decrypt, decrypt_items, decode, decode_all}
mod Safety
pub use Codec.{wire_time, received, IsDelivered, decrypt-encrypt}
pub use Safety.{from_slice-IsSettled, decrypt-IsSettled, decrypt-IsPlain}
