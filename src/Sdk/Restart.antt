-- ===== src/Sdk/Restart.antt =====
-- A manager that starts again on the key file that it wrote.
use aether_protocol.Prelude.{ℕ, List}
use aether_protocol.Crypto.Identity.{Identity}
use aether_protocol.Crypto.Hex.{Hex}
use aether_protocol.Sdk.Vault.{file_vault}
use aether_protocol.Sdk.Manager.{IdentityConfig, IdentityManager}

-- The manager of a file vault.
abbrev pub file_manager : IdentityConfig → List ℕ → Identity → IdentityManager
file_manager config path identity = record {
  identity = identity;
  vault = file_vault path;
  rotation = config.rotation;
  config = config;
}
