-- ===== src/Packets/Packet.antt =====
-- `Packet`: a received frame is a mesh packet if its first three bits are set, and LoRaWAN otherwise.
use chirpstack_gateway_mesh.Common.{
  ℕ, ◌≡◌, ◌==◌, ◌<◌, leb, if◌then◌else◌, Bool-cases, inl, inr, List, [], ◌∷◌, if◌then◌else◌,
  bit_and, arith,
}
use chirpstack_gateway_mesh.Common.Bits.{bit_and_masks}
use chirpstack_gateway_mesh.Common.Result.{Result, ok, err, map_ok, input_is_empty}
use chirpstack_gateway_mesh.Packets.MeshPacket
use chirpstack_gateway_mesh.Packets.MeshPacket.{MeshPacket}

pub data Packet : Type 0 where
  mesh : MeshPacket → Packet
  lora : List ℕ → Packet

unfoldable pub from_slice : List ℕ → Result Packet
from_slice [] = err input_is_empty
from_slice (x ∷ b) =
    if bit_and x 0xe0 == 0xe0
    then map_ok mesh (MeshPacket.from_slice (x ∷ b))
    else ok (lora (x ∷ b))

unfoldable pub to_vec : Packet → Result (List ℕ)
to_vec (mesh v) = MeshPacket.to_vec v
to_vec (lora v) = ok v

-- A frame is parsed as a mesh packet exactly when its first byte is at least 224, and any other
-- frame is kept as it is.
pub from_slice_kinds :
    (x : ℕ) (b : List ℕ)
    → x < 256
    → from_slice (x ∷ b)
      ≡ (if leb 224 x then map_ok mesh (MeshPacket.from_slice (x ∷ b)) else ok (lora (x ∷ b)))
unfolding from_slice
from_slice_kinds x b h = elim (Bool-cases (leb 224 x)) [
  | inl e ↦ rw e (ground (arith, bit_and_masks x h))
  | inr e ↦ rw e (ground (arith, bit_and_masks x h))
]
