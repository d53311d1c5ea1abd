-- ===== src/Handshake.antt =====
-- aether-core/src/handshake.rs: the hello messages and the exchange that ends in a shared key.
pub mod Capabilities
pub mod Hello
pub mod Reading
pub mod Helpers
pub mod CapabilitiesRoundTrip
pub mod HelloRoundTrip
pub mod Context
pub mod Steps
pub mod Setting
pub mod Exchange
pub mod Agreement
pub mod Finished
pub mod Truncated
pub mod Impersonation
pub mod Sample
mod Tests
