-- ===== src/Tests.antt =====
-- Runs of the theorems on concrete packets, configurations and states.
mod Data
mod Wire
mod Radio
mod Node
mod Network
mod Startup
mod Boot
mod Delivery
mod Answer
mod Reports
mod Sockets
mod Messages
