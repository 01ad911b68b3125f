-- ===== src/Cache/PayloadCache.antt =====
-- `PayloadCache`: what makes two mesh packets the same payload.
use chirpstack_gateway_mesh.Common.{ℕ, ◌%◌, ◌^◌, Bool, ◌&&◌, ◌==◌}
use chirpstack_gateway_mesh.Common.Int.{ℤ, pos, negsuc}
use chirpstack_gateway_mesh.Common.Bytes.{Bytes4}
use chirpstack_gateway_mesh.Packets.PayloadType
use chirpstack_gateway_mesh.Packets.PayloadType.{PayloadType}
use chirpstack_gateway_mesh.Packets.MeshPacket.{MeshPacket, Payload}
use chirpstack_gateway_mesh.Packets.MeshPacket

pub record PayloadCache : Type 0 where
  pub p_type : PayloadType
  pub uplink_id : ℕ
  pub timestamp : ℕ
  pub relay_id : Bytes4

-- `duration_since(UNIX_EPOCH).unwrap_or_default().as_secs() as u32`.
abbrev pub secs_or_zero : ℤ → ℕ
secs_or_zero (pos n) = n % 2 ^ 32
secs_or_zero (negsuc n) = 0

unfoldable pub key_of : PayloadType → Payload → PayloadCache
key_of t (Payload.uplink v) = record {
  p_type = t;
  uplink_id = v.metadata.uplink_id;
  timestamp = 0;
  relay_id = v.relay_id;
}
key_of t (Payload.downlink v) = record {
  p_type = t;
  uplink_id = v.metadata.uplink_id;
  timestamp = 0;
  relay_id = v.relay_id;
}
key_of t (Payload.event v) = record {
  p_type = t;
  uplink_id = 0;
  timestamp = secs_or_zero v.timestamp.secs;
  relay_id = v.relay_id;
}
key_of t (Payload.command v) = record {
  p_type = t;
  uplink_id = 0;
  timestamp = secs_or_zero v.timestamp.secs;
  relay_id = v.relay_id;
}

-- `impl From<&MeshPacket> for PayloadCache`.
unfoldable pub from_packet : MeshPacket → PayloadCache
unfolding key_of
from_packet p = key_of p.mhdr.payload_type p.payload

-- The derived equality.
unfoldable pub payload_cache_eq : PayloadCache → PayloadCache → Bool
unfolding PayloadType.to_byte MeshPacket.mic_eq
payload_cache_eq a b =
    (PayloadType.to_byte a.p_type == PayloadType.to_byte b.p_type)
    && (a.uplink_id == b.uplink_id)
    && (a.timestamp == b.timestamp)
    && MeshPacket.mic_eq a.relay_id b.relay_id
