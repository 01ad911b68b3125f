-- ===== src/Packets/Command.antt =====
-- `Command`: a proprietary command, or the encrypted bytes of commands.
mod Defs
mod Codec
pub use Defs.{Command}
unfoldable pub use Defs.{encode, decode, get_type}
pub use Codec.{IsPlain, decode-Progresses, decode-IsPlain, IsEncodable, IsEncodable-IsReadable}
