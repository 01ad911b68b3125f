-- ===== src/Packets/DownlinkMetadata.antt =====
-- `DownlinkMetadata`: the six bytes at the head of a relayed downlink.
use chirpstack_gateway_mesh.Common.{
  ℕ, ◌+◌, ◌-◌, ◌*◌, ◌/◌, ◌%◌, ◌≤◌, ◌≡◌, ltb, arith, bit_and, bit_or, [], ◌∷◌,
}
use chirpstack_gateway_mesh.Common.Bits.{bit_and_masks, bit_or_nibbles}
use chirpstack_gateway_mesh.Common.Bytes.{Bytes6, bytes6, IsBytes6, u16_from_be_bytes}
use chirpstack_gateway_mesh.Common.Result.{
  Result, ok, ◌>>=◌, ◌>>◌, reject_if, IsSettled, unwrap, max_uplink_id, max_dr, min_delay,
  max_tx_power, max_delay,
}
use chirpstack_gateway_mesh.Packets.Freq.{encode_freq, decode_freq, IsMeshFrequency, freq_bytes}

pub record DownlinkMetadata : Type 0 where
  pub uplink_id : ℕ
  pub dr : ℕ
  pub frequency : ℕ
  pub tx_power : ℕ
  pub delay : ℕ

-- The `unwrap` of the source is kept: it would panic on an error.
unfoldable pub from_bytes : Bytes6 → Result DownlinkMetadata
from_bytes b = do
  frequency ← unwrap (decode_freq (b.b2 ∷ b.b3 ∷ b.b4 ∷ []))
  ok (record {
    uplink_id = u16_from_be_bytes b.b0 b.b1 / 16;
    dr = bit_and b.b1 0x0f;
    frequency = frequency;
    tx_power = bit_and b.b5 0xf0 / 16;
    delay = bit_and b.b5 0x0f + 1;
  })

unfoldable pub to_bytes : DownlinkMetadata → Result Bytes6
to_bytes m = do
  reject_if (ltb 4095 m.uplink_id) max_uplink_id
  reject_if (ltb 15 m.dr) max_dr
  reject_if (ltb m.delay 1) min_delay
  reject_if (ltb 15 m.tx_power) max_tx_power
  reject_if (ltb 16 m.delay) max_delay
  let id = m.uplink_id * 16 % 65536
  freq_b ← encode_freq m.frequency
  ok (
      bytes6 (id / 256) (bit_or (id % 256) m.dr) freq_b.b0 freq_b.b1 freq_b.b2
        (bit_or (m.tx_power * 16 % 256) (m.delay - 1)))

-- What six bytes can hold.
pub record InRange (m : DownlinkMetadata) : Type 0 where
  pub uplink_id : m.uplink_id ≤ 4095
  pub dr : m.dr ≤ 15
  pub tx_power : m.tx_power ≤ 15
  pub delay_min : 1 ≤ m.delay
  pub delay_max : m.delay ≤ 16
  pub frequency : IsMeshFrequency m.frequency

-- Metadata in range is encoded to six bytes, which decode to it.
pub from_bytes-to_bytes :
    (m : DownlinkMetadata)
    → InRange m
    → (a : Bytes6) × (to_bytes m ≡ ok a) × IsBytes6 a × (from_bytes a ≡ ok m)
unfolding to_bytes from_bytes
from_bytes-to_bytes m r =
    let (f, e, bytes, back) = freq_bytes m.frequency r.frequency in
    (
      bytes6 (m.uplink_id / 16) (m.uplink_id % 16 * 16 + m.dr) f.b0 f.b1 f.b2
          (m.tx_power * 16 + (m.delay - 1)),
      ground
          (arith, bit_or_nibbles (m.uplink_id % 16) m.dr, bit_or_nibbles m.tx_power (m.delay - 1)),
      ground arith,
      ground (
        arith,
        bit_and_masks (m.uplink_id % 16 * 16 + m.dr),
        bit_and_masks (m.tx_power * 16 + (m.delay - 1)),
      ),
    )

-- The `unwrap` of the decoder never panics.
pub from_bytes-IsSettled : (b : Bytes6) → IsSettled (from_bytes b)
unfolding from_bytes decode_freq
from_bytes-IsSettled b = tt
