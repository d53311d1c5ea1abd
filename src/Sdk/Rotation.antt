-- ===== src/Sdk/Rotation.antt =====
-- Rotation of the key: what it changes, and what it leaves when the vault refuses.
use aether_protocol.Prelude.{
  ℕ, ◌≡◌, inl, inr, refl, Bool, true, false, ◌&&◌, Option, none, some, List, if◌then◌else◌,
  Bool-cases,
}
use aether_protocol.Table.Strings.{put_entry}
use aether_protocol.Crypto.{Primitives}
use aether_protocol.Crypto.Identity.{Identity, generate}
use aether_protocol.Crypto.Hex.{Hex, hash_hex}
use aether_protocol.Sdk.Vault.{
  World, KeyVault, file_vault, env_vault, write_file, save_identity, archive_identity, archive_file,
}
use aether_protocol.Sdk.Manager.{IdentityManager, rotate, save_rotated}

-- Whether the vault takes a new key.
abbrev pub takes_key : World → KeyVault → Bool
takes_key world (file_vault key_path) = world.writable key_path
takes_key world (env_vault var_name) = true

save-takes :
    (hex : Hex) (world : World) (vault : KeyVault) (identity : Identity)
    → takes_key world vault ≡ true
    → (saved : World) × (save_identity hex world vault identity ≡ some saved)
unfolding save_identity write_file
save-takes hex world (file_vault key_path) identity e = rw e (_, refl)
save-takes hex world (env_vault var_name) identity e = (world, refl)

save-refuses :
    (hex : Hex) (world : World) (vault : KeyVault) (identity : Identity)
    → takes_key world vault ≡ false
    → save_identity hex world vault identity ≡ none
unfolding save_identity write_file
save-refuses hex world (file_vault key_path) identity e = rw e refl
save-refuses hex world (env_vault var_name) identity e = cc

-- The outcome of a rotation for the manager and its caller.
abbrev pub outcome : World × IdentityManager × Option (List ℕ) → IdentityManager × Option (List ℕ)
outcome (world, manager, answer) = (manager, answer)

key_taken :
    (hex : Hex) (world : World) (identity : Identity) (manager : IdentityManager)
    → outcome
        (save_rotated hex (save_identity hex world manager.vault identity) world identity manager)
      ≡ (if takes_key world manager.vault
          then (record manager { identity = identity }, some (hash_hex hex identity))
          else (manager, none))
key_taken hex world identity manager = elim (Bool-cases (takes_key world manager.vault)) [
  | inl e ↦ let (saved, done) = save-takes hex world manager.vault identity e in rw (done, e) refl
  | inr e ↦ rw (save-refuses hex world manager.vault identity e, e) refl
]

-- If the archive's file can be written and the vault then takes a new key, `rotate` installs the
-- new identity and returns its hash; if either fails, it returns an error and the manager is as it
-- was.
pub rotate_lem :
    (prims : Primitives) (hex : Hex) (secret : List ℕ) (world : World) (manager : IdentityManager)
    → let archives = world.writable (archive_file hex manager.vault manager.identity) in
      let next = generate prims secret in
      outcome (rotate prims hex secret world manager) ≡ (
        if archives && takes_key world manager.vault
        then (record manager { identity = next }, some (hash_hex hex next))
        else (manager, none))
unfolding rotate archive_identity write_file
rotate_lem prims hex secret world manager =
    let file = archive_file hex manager.vault manager.identity in
    let archived = record world {
      files = put_entry file (hex.hex_encode manager.identity.public_key) world.files;
    } in
    elim (Bool-cases (world.writable file)) [
      | inl e ↦ rw e (key_taken hex archived (generate prims secret) manager)
      | inr e ↦ rw e refl
    ]
