-- ===== src/Handshake/Hello.antt =====
-- aether-core/src/handshake.rs: `ClientHello` and `ServerHello`. An array of 32 bytes is a list.
use aether_protocol.Prelude.{
  ℕ, ◌+◌, ◌%◌, ◌^◌, List, [], ◌∷◌, ◌++◌, ltb, ◌==◌, if◌then◌else◌, length,
}
use aether_protocol.Prelude.Bytes.{to_be}
use aether_protocol.Errors.{Error, Result, ok, err, ◌>>=◌, index, slice}
use aether_protocol.Framing.Types.{aether_version}
use aether_protocol.Framing.Header.{be_at, indices}
use aether_protocol.Crypto.{Primitives, AeadAlgorithm, aes256_gcm, cha_cha20_poly1305}
use aether_protocol.Crypto.Identity.{Identity, sign}
use aether_protocol.Handshake.Capabilities.{Capabilities, encode_capabilities, decode_capabilities}

pub record ClientHello : Type 0 where
  pub version : ℕ
  pub connection_id : ℕ
  pub supported_versions : List ℕ
  pub aead : AeadAlgorithm
  pub x25519_public : List ℕ
  pub identity : List ℕ
  pub identity_public_key : List ℕ
  pub capabilities : Capabilities

unfoldable pub new_client_hello : ℕ → List ℕ → Identity → Capabilities → ClientHello
new_client_hello connection_id x25519_public identity capabilities = record {
  version = aether_version;
  connection_id = connection_id;
  supported_versions = aether_version ∷ [];
  aead = aes256_gcm;
  x25519_public = x25519_public;
  identity = identity.identity_hash;
  identity_public_key = identity.public_key;
  capabilities = capabilities;
}

abbrev pub aead_to_u8 : AeadAlgorithm → ℕ
aead_to_u8 aes256_gcm = 0x00
aead_to_u8 cha_cha20_poly1305 = 0x01

abbrev pub aead_from_u8 : ℕ → Result AeadAlgorithm
aead_from_u8 b =
    if b == 0x00
    then ok aes256_gcm
    else if b == 0x01
    then ok cha_cha20_poly1305
    else err Error.protocol_violation

-- From the algorithm's byte on.
abbrev pub client_hello_tail : ClientHello → List ℕ
client_hello_tail h =
    aead_to_u8 h.aead
    ∷ (h.x25519_public
        ++ (h.identity ++ (h.identity_public_key ++ encode_capabilities h.capabilities)))

unfoldable pub encode_client_hello : ClientHello → List ℕ
encode_client_hello h =
    h.version
    ∷ (to_be 8 h.connection_id
        ++ (length h.supported_versions % 256 ∷ (h.supported_versions ++ client_hello_tail h)))

-- The fields behind the list of versions, which end at `offset`.
abbrev pub read_client_hello : ℕ → ℕ → List ℕ → List ℕ → ℕ → Result ClientHello
read_client_hello version connection_id supported_versions bytes offset = do
  b ← index bytes offset
  aead ← aead_from_u8 b
  x25519_public ← slice bytes (offset + 1) (offset + 1 + 32)
  identity ← slice bytes (offset + 33) (offset + 33 + 32)
  identity_public_key ← slice bytes (offset + 65) (offset + 65 + 32)
  capabilities ← decode_capabilities bytes (offset + 97)
  ok (record {
    version = version;
    connection_id = connection_id;
    supported_versions = supported_versions;
    aead = aead;
    x25519_public = x25519_public;
    identity = identity;
    identity_public_key = identity_public_key;
    capabilities = capabilities;
  })

unfoldable pub decode_client_hello : List ℕ → Result ClientHello
decode_client_hello bytes = if ltb (length bytes) 80 then err Error.protocol_violation else do
  version ← index bytes 0
  connection_id ← be_at 8 bytes 1
  versions_count ← index bytes 9
  supported_versions ← indices versions_count bytes 10
  read_client_hello version connection_id supported_versions bytes (10 + versions_count)

pub record ServerHello : Type 0 where
  pub version : ℕ
  pub source_connection_id : ℕ
  pub dest_connection_id : ℕ
  pub x25519_public : List ℕ
  pub identity : List ℕ
  pub identity_public_key : List ℕ
  pub identity_proof : List ℕ
  pub capabilities : Capabilities

unfoldable pub new_server_hello :
    Primitives → ℕ → ℕ → List ℕ → Identity → List ℕ → Capabilities → ServerHello
new_server_hello prims source dest x25519_public identity transcript capabilities = record {
  version = aether_version;
  source_connection_id = source;
  dest_connection_id = dest;
  x25519_public = x25519_public;
  identity = identity.identity_hash;
  identity_public_key = identity.public_key;
  identity_proof = sign prims identity transcript;
  capabilities = capabilities;
}

unfoldable pub encode_server_hello : ServerHello → List ℕ
encode_server_hello h =
    h.version
    ∷ (to_be 8 h.source_connection_id
        ++ (to_be 8 h.dest_connection_id
            ++ (h.x25519_public
                ++ (h.identity
                    ++ (h.identity_public_key
                        ++ (to_be 2 (length h.identity_proof % 2 ^ 16)
                            ++ (h.identity_proof ++ encode_capabilities h.capabilities)))))))

unfoldable pub decode_server_hello : List ℕ → Result ServerHello
decode_server_hello bytes = do
  version ← index bytes 0
  source_connection_id ← be_at 8 bytes 1
  dest_connection_id ← be_at 8 bytes 9
  x25519_public ← slice bytes 17 (17 + 32)
  identity ← slice bytes 49 (49 + 32)
  identity_public_key ← slice bytes 81 (81 + 32)
  proof_len ← be_at 2 bytes 113
  identity_proof ← slice bytes 115 (115 + proof_len)
  capabilities ← decode_capabilities bytes (115 + proof_len)
  ok (record {
    version = version;
    source_connection_id = source_connection_id;
    dest_connection_id = dest_connection_id;
    x25519_public = x25519_public;
    identity = identity;
    identity_public_key = identity_public_key;
    identity_proof = identity_proof;
    capabilities = capabilities;
  })
