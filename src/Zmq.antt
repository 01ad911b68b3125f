-- ===== src/Zmq.antt =====
-- What `src/backend.rs` and `src/proxy.rs` use of ZeroMQ sockets: `Requests` has the threads that
-- send commands to a Concentratord and read its events, `Events` what the latter pass on, and
-- `Replies` the thread of the proxy API's commands.
pub mod Socket
pub mod Requests
pub mod Events
pub mod Replies
