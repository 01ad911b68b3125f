-- ===== src/Packets/EventPayload.antt =====
-- `EventPayload`: a timestamp, the identifier of the relay that reports, and its events. The codec
-- and the encryption are in `Defs`, the round trip is in `Codec`.
mod Slice
mod Defs
mod Codec
pub use Slice.{EventPayload}
unfoldable pub use Defs.{from_slice, to_vec, encrypt, decrypt, decrypt_items, decode, decode_all}
mod Safety
pub use Codec.{wire_time, received, IsDelivered, decrypt-encrypt}
pub use Safety.{from_slice-IsSettled, decrypt-IsSettled, decrypt-IsPlain}
