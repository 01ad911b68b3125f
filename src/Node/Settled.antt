-- ===== src/Node/Settled.antt =====
-- The handlers neither panic nor hang, whatever arrives, as long as what they call returns.
pub mod Senders
pub mod Relay
pub mod Border
pub mod Entries
