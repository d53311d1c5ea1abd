-- ===== src/Sdk/Vault.antt =====
-- aether-sdk/src/identity/vault.rs: the key vaults. A text is the code points of its characters, and the
-- text of an error is left out: `none` is an error.
use aether_protocol.Prelude.{
  ℕ, ◌+◌, Bool, true, false, not, ◌&&◌, ◌||◌, Option, none, some, List, [], ◌∷◌, ◌++◌, length, leb,
  ltb, ◌==◌, if◌then◌else◌,
}
use aether_protocol.Table.Strings.{StringTable, find_entry, put_entry}
use aether_protocol.Crypto.{Primitives}
use aether_protocol.Crypto.Identity.{Identity, from_seed}
use aether_protocol.Crypto.Hex.{Hex, hash_hex}

-- The files that can be read as text, the paths that can be written, and the environment.
pub record World : Type 0 where
  pub files : StringTable (List ℕ)
  pub writable : List ℕ → Bool
  pub vars : StringTable (List ℕ)

-- The operator `?`.
abbrev pub and_then {ℓ κ} : {A : Type ℓ} {B : Type κ} → Option A → (A → Option B) → Option B
and_then none f = none
and_then (some a) f = f a

abbrev pub require : Bool → Option (Unit {0})
require true = some tt
require false = none

-- `fs::write`.
unfoldable pub write_file : List ℕ → List ℕ → World → Option World
write_file path text world =
    if world.writable path
    then some (record world { files = put_entry path text world.files })
    else none

-- Characters with the property White_Space.
abbrev pub is_whitespace : ℕ → Bool
is_whitespace c =
    (leb 9 c && leb c 13)
    || c == 32
    || c == 0x85
    || c == 0xA0
    || c == 0x1680
    || (leb 0x2000 c && leb c 0x200A)
    || c == 0x2028
    || c == 0x2029
    || c == 0x202F
    || c == 0x205F
    || c == 0x3000

abbrev pub trim_start : List ℕ → List ℕ
trim_start [] = []
trim_start (c ∷ cs) = let rest = trim_start cs in if is_whitespace c then rest else c ∷ cs

-- The white space at the end: what is left of a text that is white throughout is nothing.
abbrev pub trim_end : List ℕ → List ℕ
trim_end [] = []
trim_end (c ∷ cs) =
    let rest = trim_end cs in if is_whitespace c && length rest == 0 then [] else c ∷ rest

-- `trim`.
abbrev pub trim : List ℕ → List ℕ
trim text = trim_end (trim_start text)

-- `len`: the bytes of the characters in UTF-8.
abbrev pub utf8_len : ℕ → ℕ
utf8_len c = if ltb c 0x80 then 1 else if ltb c 0x800 then 2 else if ltb c 0x10000 then 3 else 4

abbrev pub text_len : List ℕ → ℕ
text_len [] = 0
text_len (c ∷ cs) = utf8_len c + text_len cs

pub data KeyVault : Type 0 where
  file_vault env_vault : List ℕ → KeyVault

-- A seed in hexadecimal digits.
abbrev pub identity_from_hex : Primitives → Hex → List ℕ → Option Identity
identity_from_hex prims hex text =
    and_then (hex.hex_decode text)
      λ seed. and_then (require (length seed == 32)) λ done. some (from_seed prims seed)

abbrev pub load_file : Primitives → Hex → Option (List ℕ) → Option Identity
load_file prims hex text = and_then text λ content.
    let digits = trim content in
    and_then (require (text_len digits == 64)) λ done. identity_from_hex prims hex digits

abbrev pub load_env : Primitives → Hex → Option (List ℕ) → Option Identity
load_env prims hex text = and_then text λ digits.
    and_then (require (not (length digits == 0))) λ done. identity_from_hex prims hex digits

unfoldable pub load_identity : Primitives → Hex → World → KeyVault → Option Identity
load_identity prims hex world (file_vault key_path) =
    load_file prims hex (find_entry key_path world.files)
load_identity prims hex world (env_vault var_name) =
    load_env prims hex (find_entry var_name world.vars)

-- The variable is not written.
unfoldable pub save_identity : Hex → World → KeyVault → Identity → Option World
save_identity hex world (file_vault key_path) identity =
    write_file key_path (hash_hex hex identity) world
save_identity hex world (env_vault var_name) identity = some world

-- The path up to the last separator, for a path without empty or `.` components.
abbrev pub has_separator : List ℕ → Bool
has_separator [] = false
has_separator (c ∷ cs) = if c == 47 then true else has_separator cs

abbrev pub before_last : List ℕ → List ℕ
before_last [] = []
before_last (c ∷ cs) = let rest = before_last cs in if has_separator cs then c ∷ rest else []

-- `pop`: the parent of a name at the root is the root.
abbrev pub pop : List ℕ → List ℕ
pop [] = []
pop (c ∷ cs) =
    let rest = before_last (c ∷ cs) in if c == 47 && length rest == 0 then 47 ∷ [] else rest

-- `join`.
abbrev pub ends_with_separator : List ℕ → Bool
ends_with_separator [] = true
ends_with_separator (c ∷ []) = c == 47
ends_with_separator (c ∷ d ∷ cs) = ends_with_separator (d ∷ cs)

abbrev pub join : List ℕ → List ℕ → List ℕ
join path name = if ends_with_separator path then path ++ name else path ++ (47 ∷ name)

-- "/tmp/aether-archived-keys".
abbrev pub env_archive : List ℕ
env_archive =
    47 ∷ 116 ∷ 109 ∷ 112 ∷ 47 ∷ 97 ∷ 101 ∷ 116 ∷ 104 ∷ 101 ∷ 114 ∷ 45 ∷ 97 ∷ 114 ∷ 99 ∷ 104 ∷ 105
    ∷ 118 ∷ 101 ∷ 100 ∷ 45 ∷ 107 ∷ 101 ∷ 121 ∷ 115 ∷ []

unfoldable pub archive_path : KeyVault → List ℕ
archive_path (file_vault key_path) = pop key_path
archive_path (env_vault var_name) = env_archive

-- ".archived".
abbrev pub archived_suffix : List ℕ
archived_suffix = 46 ∷ 97 ∷ 114 ∷ 99 ∷ 104 ∷ 105 ∷ 118 ∷ 101 ∷ 100 ∷ []

-- The file of an archived identity.
abbrev pub archive_file : Hex → KeyVault → Identity → List ℕ
archive_file hex vault identity =
    join (archive_path vault) (hex.hex_encode identity.public_key ++ archived_suffix)

unfoldable pub archive_identity : Hex → World → KeyVault → Identity → Option World
archive_identity hex world vault identity =
    write_file (archive_file hex vault identity) (hex.hex_encode identity.public_key) world
