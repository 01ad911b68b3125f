-- ===== src/Packets/Event.antt =====
-- `Event`: a heartbeat, a proprietary event, or the encrypted bytes of events. An event is written
-- in `Encode` and read in `Decode`; the round trip is in `Codec`.
mod Defs
mod Encode
mod Decode
mod Codec
pub use Defs.{Event}
unfoldable pub use Encode.{encode}
unfoldable pub use Decode.{decode}
pub use Decode.{decode-Progresses, IsPlain, decode-IsPlain}
pub use Codec.{IsEncodable, IsEncodable-IsReadable, decode-encode_cut}
