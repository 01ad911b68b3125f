-- ===== src/Packets/UplinkMetadata.antt =====
-- `UplinkMetadata`: the five bytes at the head of a relayed uplink.
use chirpstack_gateway_mesh.Common.{
  ℕ, ◌+◌, ◌*◌, ◌/◌, ◌%◌, ◌≤◌, ◌<◌, ◌≡◌, ltb, arith, bit_and, bit_or, if◌then◌else◌,
}
use chirpstack_gateway_mesh.Common.Int.{ℤ, pos, negsuc, ◌≤ℤ◌, ltb_ℤ, neg, sub_ℕ, add_ℕ, as_u8}
use chirpstack_gateway_mesh.Common.Bits.{bit_and_masks, bit_or_nibbles}
use chirpstack_gateway_mesh.Common.Bytes.{Bytes5, bytes5, IsBytes5, u16_from_be_bytes}
use chirpstack_gateway_mesh.Common.Result.{
  Result, ok, ◌>>◌, reject_if, max_uplink_id, max_dr, max_rssi, min_rssi, min_snr, max_snr,
}

pub record UplinkMetadata : Type 0 where
  pub uplink_id : ℕ
  pub dr : ℕ
  pub rssi : ℤ
  pub snr : ℤ
  pub channel : ℕ

unfoldable pub from_bytes : Bytes5 → UplinkMetadata
from_bytes b =
    let snr = bit_and b.b3 0x3f in
    record {
      uplink_id = u16_from_be_bytes b.b0 b.b1 / 16;
      dr = bit_and b.b1 0x0f;
      rssi = neg (pos b.b2);
      snr = if ltb 31 snr then sub_ℕ snr 64 else pos snr;
      channel = b.b4;
    }

unfoldable pub to_bytes : UplinkMetadata → Result Bytes5
to_bytes m = do
  reject_if (ltb 4095 m.uplink_id) max_uplink_id
  reject_if (ltb 15 m.dr) max_dr
  reject_if (ltb_ℤ (pos 0) m.rssi) max_rssi
  reject_if (ltb_ℤ m.rssi (negsuc 254)) min_rssi
  reject_if (ltb_ℤ m.snr (negsuc 31)) min_snr
  reject_if (ltb_ℤ (pos 31) m.snr) max_snr
  let id = m.uplink_id * 16 % 65536
  ok (
      bytes5 (id / 256) (bit_or (id % 256) m.dr) (as_u8 (neg m.rssi))
        (if ltb_ℤ m.snr (pos 0) then as_u8 (add_ℕ m.snr 64) else as_u8 m.snr) m.channel)

-- What five bytes can hold.
pub record InRange (m : UplinkMetadata) : Type 0 where
  pub uplink_id : m.uplink_id ≤ 4095
  pub dr : m.dr ≤ 15
  pub rssi_max : m.rssi ≤ℤ pos 0
  pub rssi_min : negsuc 254 ≤ℤ m.rssi
  pub snr_min : negsuc 31 ≤ℤ m.snr
  pub snr_max : m.snr ≤ℤ pos 31

to_bytes-InRange : (m : UplinkMetadata) {a : Bytes5} → to_bytes m ≡ ok a → InRange m
unfolding to_bytes
to_bytes-InRange m h = ground arith

-- Metadata in range is encoded to five bytes, which decode to it.
pub from_bytes-to_bytes :
    (m : UplinkMetadata)
    → InRange m
    → m.channel < 256
    → (a : Bytes5) × (to_bytes m ≡ ok a) × IsBytes5 a × (from_bytes a ≡ m)
unfolding to_bytes from_bytes
from_bytes-to_bytes m r c = (
  bytes5 (m.uplink_id / 16) (m.uplink_id % 16 * 16 + m.dr) (as_u8 (neg m.rssi)) (as_u8 m.snr % 64)
      m.channel,
  ground (arith, bit_or_nibbles (m.uplink_id % 16) m.dr),
  ground arith,
  ground (arith, bit_and_masks (m.uplink_id % 16 * 16 + m.dr), bit_and_masks (as_u8 m.snr % 64)),
)
