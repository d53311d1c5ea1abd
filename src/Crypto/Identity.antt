-- ===== src/Crypto/Identity.antt =====
-- aether-core/src/identity.rs: a node's Ed25519 key and the hash that names it.
use aether_protocol.Prelude.{ℕ, Bool, List, [], ◌∷◌, ◌++◌}
use aether_protocol.Errors.{Error, Result, ok, ◌>>◌, guard}
use aether_protocol.Crypto.{Primitives, equal_bytes}

pub record Identity : Type 0 where
  pub signing_key : List ℕ
  pub public_key : List ℕ
  pub identity_hash : List ℕ

-- b"AETHER-ID-".
abbrev identity_prefix : List ℕ
identity_prefix = 65 ∷ 69 ∷ 84 ∷ 72 ∷ 69 ∷ 82 ∷ 45 ∷ 73 ∷ 68 ∷ 45 ∷ []

unfoldable pub compute_identity_hash : Primitives → List ℕ → List ℕ
compute_identity_hash prims public_key = prims.sha256 (identity_prefix ++ public_key)

-- The signing key is drawn at random: the argument.
unfoldable pub generate : Primitives → List ℕ → Identity
generate prims signing_key =
    let public_key = prims.ed25519_public signing_key in
    record {
      signing_key = signing_key;
      public_key = public_key;
      identity_hash = compute_identity_hash prims public_key;
    }

unfoldable pub from_seed : Primitives → List ℕ → Identity
from_seed prims seed =
    let public_key = prims.ed25519_public seed in
    record {
      signing_key = seed;
      public_key = public_key;
      identity_hash = compute_identity_hash prims public_key;
    }

unfoldable pub sign : Primitives → Identity → List ℕ → List ℕ
sign prims identity message = prims.ed25519_sign identity.signing_key message

unfoldable pub verify : Primitives → List ℕ → List ℕ → List ℕ → Result (Unit {0})
verify prims public_key message signature = do
  guard (prims.ed25519_is_key public_key) Error.crypto
  guard (prims.ed25519_verify public_key message signature) Error.crypto

unfoldable pub verify_hash : Primitives → List ℕ → List ℕ → Result Bool
verify_hash prims public_key identity_hash = do
  guard (prims.ed25519_is_key public_key) Error.crypto
  ok (equal_bytes (compute_identity_hash prims public_key) identity_hash)

-- `PartialEq`.
unfoldable pub same_identity : Identity → Identity → Bool
same_identity identity other = equal_bytes identity.identity_hash other.identity_hash
