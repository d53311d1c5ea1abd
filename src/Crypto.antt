-- ===== src/Crypto.antt =====
-- aether-core/src/crypto.rs and identity.rs: key derivation, the keys of each direction, the
-- Finished code and the node identities. The algorithms themselves, which come from other crates,
-- are the fields of `Primitives`, and `Lawful` is what their documentation promises. A random
-- secret is an argument.
pub mod Keys
pub mod Identity
pub mod Hex
pub mod HexSample
pub mod Nonces
mod Tests
pub mod Sample
use aether_protocol.Prelude.{
  ap, arith, ◌≢◌, ◌+◌, ℕ, ◌≤◌, ◌≡◌, refl, ==_refl, Bool, true, false, Option, none, some, List, [],
  ◌∷◌, length, ◌==◌, ◌||◌, if◌then◌else◌,
}
use aether_protocol.Errors.{Error, Result, ok, err, ◌>>=◌, or_error, or_panic}

pub record Primitives : Type 0 where
  -- HKDF with SHA-256: the salt, the secret, the info, and the number of bytes wanted.
  pub hkdf_expand : Option (List ℕ) → List ℕ → List ℕ → ℕ → Option (List ℕ)
  pub hmac_sha256 : List ℕ → List ℕ → List ℕ
  pub sha256 : List ℕ → List ℕ
  -- The key, the nonce, the text and the additional data.
  pub aead_encrypt : List ℕ → List ℕ → List ℕ → List ℕ → Option (List ℕ)
  pub aead_decrypt : List ℕ → List ℕ → List ℕ → List ℕ → Option (List ℕ)
  pub x25519_public : List ℕ → List ℕ
  pub diffie_hellman : List ℕ → List ℕ → List ℕ
  pub ed25519_public : List ℕ → List ℕ
  pub ed25519_is_key : List ℕ → Bool
  pub ed25519_sign : List ℕ → List ℕ → List ℕ
  pub ed25519_verify : List ℕ → List ℕ → List ℕ → Bool

pub record Lawful (prims : Primitives) : Type 0 where
  pub diffie_hellman_comm :
      (s t : List ℕ)
      → prims.diffie_hellman s (prims.x25519_public t)
        ≡ prims.diffie_hellman t (prims.x25519_public s)
  -- RFC 5869 allows up to 255 blocks of 32 bytes.
  pub hkdf_total :
      (salt : Option (List ℕ)) (secret info : List ℕ) (n : ℕ)
      → n ≤ 8160
      → (key : List ℕ) × (prims.hkdf_expand salt secret info n ≡ some key) × (length key ≡ n)
  pub length-x25519_public : (s : List ℕ) → length (prims.x25519_public s) ≡ 32
  pub length-sha256 : (bs : List ℕ) → length (prims.sha256 bs) ≡ 32
  pub length-hmac_sha256 : (k bs : List ℕ) → length (prims.hmac_sha256 k bs) ≡ 32
  pub length-ed25519_public : (s : List ℕ) → length (prims.ed25519_public s) ≡ 32
  pub length-ed25519_sign : (s bs : List ℕ) → length (prims.ed25519_sign s bs) ≡ 64
  pub aead_round_trip :
      (key nonce text aad : List ℕ)
      → (sealed : List ℕ) × (prims.aead_encrypt key nonce text aad ≡ some sealed)
        × (prims.aead_decrypt key nonce sealed aad ≡ some text)
        × (length sealed ≡ length text + 16)
  pub own_key : (s : List ℕ) → prims.ed25519_is_key (prims.ed25519_public s) ≡ true
  pub own_signature :
      (s bs : List ℕ)
      → prims.ed25519_verify (prims.ed25519_public s) bs (prims.ed25519_sign s bs) ≡ true

-- What a seal is for, taken without the chance of a forgery: additional data other than that of the
-- sealing is refused. It is stated for data of the 12 bytes that connections use.
pub record Authentic (prims : Primitives) : Type 0 where
  pub refuses :
      (key nonce text sealed aad other : List ℕ)
      → prims.aead_encrypt key nonce text aad ≡ some sealed
      → length aad ≡ 12
      → length other ≡ 12
      → aad ≢ other
      → prims.aead_decrypt key nonce sealed other ≡ none

pub data AeadAlgorithm : Type 0 where
  aes256_gcm cha_cha20_poly1305 : AeadAlgorithm

-- "AES-256-GCM" and "ChaCha20-Poly1305", and the same in lower case.
abbrev pub aes_name : List ℕ
aes_name = 65 ∷ 69 ∷ 83 ∷ 45 ∷ 50 ∷ 53 ∷ 54 ∷ 45 ∷ 71 ∷ 67 ∷ 77 ∷ []

abbrev pub cha_cha_name : List ℕ
cha_cha_name =
    67 ∷ 104 ∷ 97 ∷ 67 ∷ 104 ∷ 97 ∷ 50 ∷ 48 ∷ 45 ∷ 80 ∷ 111 ∷ 108 ∷ 121 ∷ 49 ∷ 51 ∷ 48 ∷ 53 ∷ []

abbrev aes_lower : List ℕ
aes_lower = 97 ∷ 101 ∷ 115 ∷ 45 ∷ 50 ∷ 53 ∷ 54 ∷ 45 ∷ 103 ∷ 99 ∷ 109 ∷ []

abbrev cha_cha_lower : List ℕ
cha_cha_lower =
    99 ∷ 104 ∷ 97 ∷ 99 ∷ 104 ∷ 97 ∷ 50 ∷ 48 ∷ 45 ∷ 112 ∷ 111 ∷ 108 ∷ 121 ∷ 49 ∷ 51 ∷ 48 ∷ 53 ∷ []

-- `Display`.
unfoldable pub algorithm_name : AeadAlgorithm → List ℕ
algorithm_name aes256_gcm = aes_name
algorithm_name cha_cha20_poly1305 = cha_cha_name

-- b"AETHER-v0-initial-salt-32bytes!OK" and b"aether-initial".
abbrev initial_salt : List ℕ
initial_salt =
    65 ∷ 69 ∷ 84 ∷ 72 ∷ 69 ∷ 82 ∷ 45 ∷ 118 ∷ 48 ∷ 45 ∷ 105 ∷ 110 ∷ 105 ∷ 116 ∷ 105 ∷ 97 ∷ 108 ∷ 45
    ∷ 115 ∷ 97 ∷ 108 ∷ 116 ∷ 45 ∷ 51 ∷ 50 ∷ 98 ∷ 121 ∷ 116 ∷ 101 ∷ 115 ∷ 33 ∷ 79 ∷ 75 ∷ []

abbrev initial_label : List ℕ
initial_label = 97 ∷ 101 ∷ 116 ∷ 104 ∷ 101 ∷ 114 ∷ 45 ∷ 105 ∷ 110 ∷ 105 ∷ 116 ∷ 105 ∷ 97 ∷ 108 ∷ []

-- `expect`.
unfoldable pub derive_initial_key : Primitives → List ℕ → Result (List ℕ)
derive_initial_key prims dest_connection_id =
    or_panic (prims.hkdf_expand (some initial_salt) dest_connection_id initial_label 32)

-- b"AETHER-v0".
abbrev pub session_salt : List ℕ
session_salt = 65 ∷ 69 ∷ 84 ∷ 72 ∷ 69 ∷ 82 ∷ 45 ∷ 118 ∷ 48 ∷ []

unfoldable pub derive_session_key : Primitives → List ℕ → List ℕ → Result (List ℕ)
derive_session_key prims shared_secret transcript =
    or_error (prims.hkdf_expand (some session_salt) shared_secret transcript 32) Error.crypto

unfoldable pub compute_finished : Primitives → List ℕ → List ℕ → List ℕ
compute_finished prims session_key transcript = prims.hmac_sha256 session_key transcript

-- Equality of slices.
abbrev pub equal_bytes : List ℕ → List ℕ → Bool
equal_bytes [] [] = true
equal_bytes [] (b ∷ bs) = false
equal_bytes (a ∷ rest) [] = false
equal_bytes (a ∷ rest) (b ∷ bs) = if a == b then equal_bytes rest bs else false

unfoldable pub algorithm_from_str : List ℕ → Option AeadAlgorithm
algorithm_from_str s =
    if equal_bytes s aes_name || equal_bytes s aes_lower
    then some aes256_gcm
    else if equal_bytes s cha_cha_name || equal_bytes s cha_cha_lower
    then some cha_cha20_poly1305
    else none

unfoldable pub check_finished : Primitives → List ℕ → List ℕ → List ℕ → Result (Unit {0})
check_finished prims session_key transcript finished =
    if equal_bytes (compute_finished prims session_key transcript) finished
    then ok tt
    else err Error.crypto

-- The public key, and the secret, which is the random argument.
unfoldable pub x25519_generate_keypair : Primitives → List ℕ → List ℕ × List ℕ
x25519_generate_keypair prims secret = (prims.x25519_public secret, secret)

unfoldable pub x25519_dh : Primitives → List ℕ → List ℕ → List ℕ
x25519_dh prims secret public = prims.diffie_hellman secret public

pub equal_bytes_refl : (bs : List ℕ) → equal_bytes bs bs ≡ true
equal_bytes_refl [] = refl
equal_bytes_refl (b ∷ bs) = rw (==_refl b) (equal_bytes_refl bs)

pub equal_bytes-eq : (xs ys : List ℕ) → equal_bytes xs ys ≡ true → xs ≡ ys
equal_bytes-eq [] [] e = refl
equal_bytes-eq [] (y ∷ ys) e = cc
equal_bytes-eq (x ∷ xs) [] e = cc
equal_bytes-eq (x ∷ xs) (y ∷ ys) e = ground (arith, equal_bytes-eq xs ys)

pub equal_bytes-ne : (xs ys : List ℕ) → equal_bytes xs ys ≡ false → xs ≢ ys
equal_bytes-ne xs ys e same = cc (e, ap (equal_bytes xs) same, equal_bytes_refl xs)

pub equal_bytes_comm : (xs ys : List ℕ) → equal_bytes xs ys ≡ equal_bytes ys xs
equal_bytes_comm [] [] = refl
equal_bytes_comm [] (y ∷ ys) = refl
equal_bytes_comm (x ∷ xs) [] = refl
equal_bytes_comm (x ∷ xs) (y ∷ ys) = ground (arith, equal_bytes_comm xs ys)
