-- ===== src/Framing.antt =====
-- aether-core/src/framing.rs: the wire format.
pub mod Types
pub mod Extension
pub mod Header
pub mod Frame
mod Tests
pub mod HeaderBits
pub mod LostExtension
pub mod Size
pub mod Builders
pub mod Total
pub mod Fuel
pub mod FrameRoundTrip
pub mod ChainRoundTrip
pub mod HeaderRoundTrip
