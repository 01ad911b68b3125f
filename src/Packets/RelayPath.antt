-- ===== src/Packets/RelayPath.antt =====
-- `RelayPath`: one hop of a heartbeat, in six bytes.
use chirpstack_gateway_mesh.Common.{◌%◌, ◌≡◌, ltb, arith, bit_and, if◌then◌else◌}
use chirpstack_gateway_mesh.Common.Int.{ℤ, pos, negsuc, ◌≤ℤ◌, ltb_ℤ, neg, sub_ℕ, add_ℕ, as_u8}
use chirpstack_gateway_mesh.Common.Bits.{bit_and_masks}
use chirpstack_gateway_mesh.Common.Bytes.{Bytes4, IsBytes4, Bytes6, bytes4, bytes6, IsBytes6}
use chirpstack_gateway_mesh.Common.Result.{
  Result, ok, ◌>>◌, reject_if, max_rssi, min_rssi, min_snr, max_snr,
}

pub record RelayPath : Type 0 where
  pub relay_id : Bytes4
  pub rssi : ℤ
  pub snr : ℤ

unfoldable pub from_bytes : Bytes6 → RelayPath
from_bytes b =
    let snr = bit_and b.b5 0x3f in
    record {
      relay_id = bytes4 b.b0 b.b1 b.b2 b.b3;
      rssi = neg (pos b.b4);
      snr = if ltb 31 snr then sub_ℕ snr 64 else pos snr;
    }

unfoldable pub to_bytes : RelayPath → Result Bytes6
to_bytes p = do
  reject_if (ltb_ℤ (pos 0) p.rssi) max_rssi
  reject_if (ltb_ℤ p.rssi (negsuc 254)) min_rssi
  reject_if (ltb_ℤ p.snr (negsuc 31)) min_snr
  reject_if (ltb_ℤ (pos 31) p.snr) max_snr
  ok (
      bytes6 p.relay_id.b0 p.relay_id.b1 p.relay_id.b2 p.relay_id.b3 (as_u8 (neg p.rssi))
        (if ltb_ℤ p.snr (pos 0) then as_u8 (add_ℕ p.snr 64) else as_u8 p.snr))

-- What six bytes can hold.
pub record InRange (p : RelayPath) : Type 0 where
  pub relay_id : IsBytes4 p.relay_id
  pub rssi_max : p.rssi ≤ℤ pos 0
  pub rssi_min : negsuc 254 ≤ℤ p.rssi
  pub snr_min : negsuc 31 ≤ℤ p.snr
  pub snr_max : p.snr ≤ℤ pos 31

-- A hop in range is encoded to six bytes, which decode to it.
pub from_bytes-to_bytes :
    (p : RelayPath)
    → InRange p
    → (a : Bytes6) × (to_bytes p ≡ ok a) × IsBytes6 a × (from_bytes a ≡ p)
unfolding to_bytes from_bytes
from_bytes-to_bytes p r = (
  bytes6 p.relay_id.b0 p.relay_id.b1 p.relay_id.b2 p.relay_id.b3 (as_u8 (neg p.rssi))
      (as_u8 p.snr % 64),
  ground arith,
  ground arith,
  ground (arith, bit_and_masks (as_u8 p.snr % 64)),
)
