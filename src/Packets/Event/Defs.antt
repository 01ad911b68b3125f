-- ===== src/Packets/Event/Defs.antt =====
-- The data type `Event`.
use chirpstack_gateway_mesh.Common.{ℕ, List}
use chirpstack_gateway_mesh.Packets.HeartbeatPayload.{HeartbeatPayload}

pub data Event : Type 0 where
  encrypted : List ℕ → Event
  heartbeat : HeartbeatPayload → Event
  proprietary : ℕ → List ℕ → Event
