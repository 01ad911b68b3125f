-- ===== src/Packets.antt =====
-- `src/packets.rs`, one module for each type with its codec.
pub mod PayloadType
pub mod Mhdr
pub mod Freq
pub mod UplinkMetadata
pub mod UplinkPayload
pub mod DownlinkMetadata
pub mod DownlinkPayload
pub mod RelayPath
pub mod HeartbeatPayload
pub mod Crypt
pub mod Tlv
pub mod Items
pub mod Event
pub mod EventPayload
pub mod Command
pub mod CommandPayload
pub mod MeshPacket
pub mod Packet
