-- ===== src/Connection.antt =====
-- aether-core/src/connection.rs: a connection after its handshake.
pub mod State
pub mod Transfer
pub mod Delivery
pub mod Close
pub mod Replay
pub mod Dial
pub mod Session
pub mod Chunks
mod Tests
