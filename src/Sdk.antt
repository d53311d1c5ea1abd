-- ===== src/Sdk.antt =====
-- aether-sdk/src: the key vaults, the identity manager and the check of service levels.
pub mod Vault
pub mod Manager
pub mod Restart
pub mod Rotation
pub mod Sla
pub mod Monitoring
mod Tests
