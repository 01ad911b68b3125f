-- ===== src/Packets/Command/Defs.antt =====
-- The data type `Command`, its encoding and decoding.
use chirpstack_gateway_mesh.Common.{ℕ, List}
use chirpstack_gateway_mesh.Common.Result.{Result, ok}
use chirpstack_gateway_mesh.Common.Cursor.{Reader, ◌>>=◌, lift}
use chirpstack_gateway_mesh.Packets.Tlv.{write_tlv, read_tlv}

pub data Command : Type 0 where
  encrypted : List ℕ → Command
  proprietary : ℕ → List ℕ → Command

unfoldable pub encode : Command → Result (List ℕ)
encode (encrypted v) = ok v
encode (proprietary t v) = ok (write_tlv t v)

-- Every tag is a proprietary command.
unfoldable pub decode_value : ℕ × List ℕ → Result Command
decode_value (tag, value) = ok (proprietary tag value)

unfoldable pub decode : Reader Command
unfolding decode_value
decode = do tag_value ← read_tlv; lift (decode_value tag_value)

unfoldable pub get_type : Command → ℕ
get_type (encrypted v) = 0x00
get_type (proprietary typ v) = typ
