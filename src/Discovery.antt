-- ===== src/Discovery.antt =====
-- aether-core/src/discovery.rs: the discovery of peers in the local network, and the records and the
-- distance of the global table.
pub mod Message
pub mod Service
pub mod MessageRoundTrip
pub mod Book
pub mod Keyed
pub mod Heard
pub mod Cache
pub mod Unauthenticated
mod Sample
mod Tests
pub mod Dht
pub mod Distance
