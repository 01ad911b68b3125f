-- ===== src/Mesh.antt =====
-- `src/mesh.rs`: the handlers of uplinks, downlinks and mesh packets.
pub mod Counters
pub mod Send
pub mod Proxy
pub mod Relay
pub mod Downlink
pub mod Handle
pub mod Replay
pub mod Forward
pub mod Deliver
pub mod Answer
pub mod Report
pub mod Order
pub mod Seconds
pub mod Statuses
pub mod Hops
pub mod Limit
pub mod Context
