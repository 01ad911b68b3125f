-- ===== src/Packets/PayloadType.antt =====
-- `PayloadType`: two bits of the mesh header.
use chirpstack_gateway_mesh.Common.{ℕ, ◌==◌, if◌then◌else◌}
use chirpstack_gateway_mesh.Common.Result.{
  Result, ok, err, IsSettled, IsSettled-if, unexpected_payload_type,
}

pub data PayloadType : Type 0 where
  uplink downlink event command : PayloadType

unfoldable pub from_byte : ℕ → Result PayloadType
from_byte b =
    if b == 0x00
    then ok uplink
    else if b == 0x01
    then ok downlink
    else if b == 0x02
    then ok event
    else if b == 0x03
    then ok command
    else err (unexpected_payload_type b)

unfoldable pub to_byte : PayloadType → ℕ
to_byte uplink = 0x00
to_byte downlink = 0x01
to_byte event = 0x02
to_byte command = 0x03

pub from_byte-IsSettled : (b : ℕ) → IsSettled (from_byte b)
unfolding from_byte
from_byte-IsSettled b = IsSettled-if (b == 0x00) _ _ tt (
    IsSettled-if (b == 0x01) _ _ tt
      (IsSettled-if (b == 0x02) _ _ tt (IsSettled-if (b == 0x03) _ _ tt tt)))
