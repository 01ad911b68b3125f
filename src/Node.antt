-- ===== src/Node.antt =====
-- The program as a whole: what its handlers keep of its state, and what follows for the states that
-- it reaches.
pub mod Frames
pub mod Stable
pub mod Border
pub mod Api
pub mod Entries
pub mod Invariant
pub mod Roles
pub mod Settled
pub mod Wire
