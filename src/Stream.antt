-- ===== src/Stream.antt =====
-- aether-core/src/stream.rs: streams inside a connection.
pub mod FlowControl
pub mod State
mod Tests
pub mod Buffer
pub mod EndToEnd
pub mod Closing
pub mod Lifecycle
pub mod Manager
pub mod Ids
pub mod Unguarded
pub mod Sorting
pub mod Reorder
pub mod Stalls
