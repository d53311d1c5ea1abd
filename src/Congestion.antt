-- ===== src/Congestion.antt =====
-- aether-core/src/congestion.rs: the congestion controller.
pub mod Controller
pub mod Samples
pub mod Window
pub mod Phases
pub mod Startup
mod Tests
