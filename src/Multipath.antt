-- ===== src/Multipath.antt =====
-- aether-core/src/multipath.rs: the network paths of a connection and their validation.
pub mod Path
pub mod Manager
pub mod Validation
pub mod Limits
pub mod Best
mod Tests
