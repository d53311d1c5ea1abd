-- ===== src/Sdk/Manager.antt =====
-- aether-sdk/src/identity/mod.rs and rotation.rs: the identity manager. A new key is drawn at random:
-- an argument.
use aether_protocol.Prelude.{ℕ, Bool, true, false, Option, none, some, List, [], ◌∷◌, if◌then◌else◌}
use aether_protocol.Crypto.{Primitives, equal_bytes}
use aether_protocol.Crypto.Identity.{Identity, generate, sign}
use aether_protocol.Crypto.Hex.{Hex, hash_hex}
use aether_protocol.Sdk.Vault.{
  World, KeyVault, file_vault, env_vault, and_then, load_identity, save_identity, archive_identity,
}

pub record RotationPolicy : Type 0 where
  pub interval_days : ℕ
  pub grace_period_secs : ℕ
  pub auto_rotate : Bool

unfoldable pub default_rotation : RotationPolicy
default_rotation = record { interval_days = 30; grace_period_secs = 3600; auto_rotate = true }

pub record IdentityConfig : Type 0 where
  pub vault_type : List ℕ
  pub key_path : Option (List ℕ)
  pub env_var : Option (List ℕ)
  pub pkcs11_uri : Option (List ℕ)
  pub rotation : Option RotationPolicy
  pub label : List ℕ

pub record IdentityManager : Type 0 where
  pub identity : Identity
  pub vault : KeyVault
  pub rotation : Option RotationPolicy
  pub config : IdentityConfig

-- "file" and "env".
abbrev pub file_type : List ℕ
file_type = 102 ∷ 105 ∷ 108 ∷ 101 ∷ []

abbrev pub env_type : List ℕ
env_type = 101 ∷ 110 ∷ 118 ∷ []

-- The `match` on the type of the vault.
unfoldable pub choose_vault : IdentityConfig → Option KeyVault
choose_vault config =
    if equal_bytes config.vault_type file_type
    then and_then config.key_path (λ path. some (file_vault path))
    else if equal_bytes config.vault_type env_type
    then and_then config.env_var (λ var. some (env_vault var))
    else none

-- What is loaded, or a new identity that is saved.
abbrev pub loaded_or_new :
    Primitives → Hex → List ℕ → World → KeyVault → Option Identity → Option (World × Identity)
loaded_or_new prims hex secret world vault (some identity) = some (world, identity)
loaded_or_new prims hex secret world vault none =
    let identity = generate prims secret in
    and_then (save_identity hex world vault identity) λ saved. some (saved, identity)

unfoldable pub new_identity_manager :
    Primitives → Hex → List ℕ → IdentityConfig → World → Option (World × IdentityManager)
new_identity_manager prims hex secret config world = and_then (choose_vault config) λ vault.
    and_then (loaded_or_new prims hex secret world vault (load_identity prims hex world vault))
      λ (after, identity). some (
        after,
        record { identity = identity; vault = vault; rotation = config.rotation; config = config },
      )

unfoldable pub manager_hash : Hex → IdentityManager → List ℕ
manager_hash hex manager = hash_hex hex manager.identity

unfoldable pub manager_sign : Primitives → IdentityManager → List ℕ → List ℕ
manager_sign prims manager message = sign prims manager.identity message

-- The archive is written before the key; what was written stays when the next step fails.
abbrev pub save_rotated :
    Hex
    → Option World
    → World
    → Identity
    → IdentityManager
    → World × IdentityManager × Option (List ℕ)
save_rotated hex none world identity manager = (world, manager, none)
save_rotated hex (some saved) world identity manager =
    (saved, record manager { identity = identity }, some (hash_hex hex identity))

abbrev pub rotate_archived :
    Hex
    → Option World
    → World
    → Identity
    → IdentityManager
    → World × IdentityManager × Option (List ℕ)
rotate_archived hex none world identity manager = (world, manager, none)
rotate_archived hex (some archived) world identity manager =
    save_rotated hex (save_identity hex archived manager.vault identity) archived identity manager

unfoldable pub rotate :
    Primitives → Hex → List ℕ → World → IdentityManager → World × IdentityManager × Option (List ℕ)
rotate prims hex secret world manager =
    rotate_archived hex (archive_identity hex world manager.vault manager.identity) world
      (generate prims secret) manager

unfoldable pub needs_rotation : IdentityManager → Bool
needs_rotation manager = elim manager.rotation [ none ↦ false | some policy ↦ policy.auto_rotate ]
