-- ===== src/Sdk/Tests.antt =====
-- Concrete runs of the identity manager and of the check of service levels.
use aether_protocol.Prelude.{
  ℕ, ◌≡◌, refl, true, false, ◌&&◌, none, some, List, [], ◌∷◌, length, if◌then◌else◌,
}
use aether_protocol.Table.Strings.{find_entry}
use aether_protocol.Crypto.Identity.{generate}
use aether_protocol.Crypto.Hex.{hash_hex}
use aether_protocol.Crypto.Sample.{toy, repeat}
use aether_protocol.Crypto.HexSample.{sample_hex}
use aether_protocol.Sdk.Vault.{
  env_vault, World, file_vault, archive_file, trim, load_identity, archive_path,
}
use aether_protocol.Sdk.Manager.{
  IdentityConfig, IdentityManager, rotate, file_type, default_rotation,
}
use aether_protocol.Sdk.Rotation.{outcome, takes_key, rotate_lem}
use aether_protocol.Sdk.Sla.{SlaPolicy, check_compliance}

-- "k/a".
abbrev key_path : List ℕ
key_path = 107 ∷ 47 ∷ 97 ∷ []

abbrev config : IdentityConfig
config = record {
  vault_type = file_type;
  key_path = some key_path;
  env_var = none;
  pkcs11_uri = none;
  rotation = some default_rotation;
  label = [];
}

abbrev world : World
world = record { files = []; writable = λ path. true; vars = [] }

abbrev secret : List ℕ
secret = repeat 32 5

abbrev manager : IdentityManager
manager = record {
  identity = generate toy secret;
  vault = file_vault key_path;
  rotation = none;
  config = config;
}

rotate_lem_example :
    let archives = world.writable (archive_file sample_hex manager.vault manager.identity) in
    let next = generate toy (repeat 32 6) in
    outcome (rotate toy sample_hex (repeat 32 6) world manager) ≡ (
      if archives && takes_key world manager.vault
      then (record manager { identity = next }, some (hash_hex sample_hex next))
      else (manager, none))
rotate_lem_example = rotate_lem toy sample_hex (repeat 32 6) world manager

abbrev policy : SlaPolicy
policy = record {
  version = 49 ∷ [];
  provider = 116 ∷ [];
  guarantees = record {
    handshake_latency_p99_ms = 100;
    throughput_min_mbps = 50;
    availability_pct = (999, 10);
    max_concurrent_streams = 1000;
    max_packet_loss_pct = (1, 100);
  };
  qos = none;
  alerts = none;
}

test_sla_compliance_pass : (check_compliance policy 80 60 (5, 1000)).compliant ≡ true
unfolding check_compliance
test_sla_compliance_pass = refl

test_sla_compliance_fail :
    let result = check_compliance policy 150 30 (2, 100) in
    (result.compliant ≡ false) × (length result.violations ≡ 3)
unfolding check_compliance
test_sla_compliance_fail = (refl, refl)

parent_of_key : archive_path (file_vault key_path) ≡ 107 ∷ []
unfolding archive_path
parent_of_key = refl

trimmed : trim (32 ∷ 97 ∷ 32 ∷ 98 ∷ 10 ∷ []) ≡ 97 ∷ 32 ∷ 98 ∷ []
trimmed = refl

-- An empty variable makes the manager draw a new identity.
test_identity_manager_from_env :
    let env_world = record world { vars = (65 ∷ [], []) ∷ [] } in
    load_identity toy sample_hex env_world (env_vault (65 ∷ [])) ≡ none
unfolding load_identity find_entry
test_identity_manager_from_env = refl
