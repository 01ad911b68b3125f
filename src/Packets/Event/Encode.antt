-- ===== src/Packets/Event/Encode.antt =====
-- `Event::encode`.
use chirpstack_gateway_mesh.Common.{ℕ, List}
use chirpstack_gateway_mesh.Common.Result.{Result, ok, ◌>>=◌}
use chirpstack_gateway_mesh.Packets.HeartbeatPayload
use chirpstack_gateway_mesh.Packets.Tlv.{write_tlv}
use chirpstack_gateway_mesh.Packets.Event.Defs.{Event, encrypted, heartbeat, proprietary}

unfoldable pub encode : Event → Result (List ℕ)
encode (encrypted v) = ok v
encode (heartbeat v) = do b ← HeartbeatPayload.to_vec v; ok (write_tlv 0x00 b)
encode (proprietary t v) = ok (write_tlv t v)
