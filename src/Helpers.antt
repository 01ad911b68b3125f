-- ===== src/Helpers.antt =====
-- `src/helpers.rs`: the mappings between what the radio uses and the small numbers of the mesh
-- packets. Channels and data rates are in `Mapping`, the transmit power in `TxPower`.
pub mod Mapping
pub mod TxPower
pub mod Ack
pub mod Settled
