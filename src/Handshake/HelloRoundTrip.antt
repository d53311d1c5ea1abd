-- ===== src/Handshake/HelloRoundTrip.antt =====
-- The hello messages are read back from what was written.
use aether_protocol.Prelude.{
  ℕ, ◌+◌, ◌%◌, ◌^◌, ◌<◌, ◌≡◌, refl, arith, List, [], ◌∷◌, ◌++◌, ge→ltb, length, length-append, drop,
}
use aether_protocol.Prelude.Bytes.{to_be, from_be-to_be, length-to_be}
use aether_protocol.Errors.{ok}
use aether_protocol.Crypto.{AeadAlgorithm, aes256_gcm, cha_cha20_poly1305}
use aether_protocol.Handshake.Capabilities.{encode_capabilities}
use aether_protocol.Handshake.Hello.{
  ClientHello, ServerHello, aead_to_u8, aead_from_u8, client_hello_tail, read_client_hello,
  encode_client_hello, decode_client_hello, encode_server_hello, decode_server_hello,
}
use aether_protocol.Handshake.Reading.{index-at, skip, slice-at, indices-read, be_at-to_be}
use aether_protocol.Handshake.CapabilitiesRoundTrip.{FitsCapabilities, decode_capabilities-at}

pub record FitsKeys (x25519_public identity identity_public_key : List ℕ) : Type 0 where
  pub x25519_fits : length x25519_public ≡ 32
  pub identity_fits : length identity ≡ 32
  pub public_key_fits : length identity_public_key ≡ 32

pub record FitsClientHello (h : ClientHello) : Type 0 where
  pub connection_id_fits : h.connection_id < 2 ^ 64
  pub versions_fit : length h.supported_versions < 256
  pub keys_fit : FitsKeys h.x25519_public h.identity h.identity_public_key
  pub capabilities_fit : FitsCapabilities h.capabilities

aead_lem : (a : AeadAlgorithm) → aead_from_u8 (aead_to_u8 a) ≡ ok a
aead_lem aes256_gcm = refl
aead_lem cha_cha20_poly1305 = refl

module _ (h : ClientHello) (at : ℕ) (bytes : List ℕ) (w : FitsClientHello h) where
  read_client_hello-at :
      drop at bytes ≡ client_hello_tail h
      → read_client_hello h.version h.connection_id h.supported_versions bytes at ≡ ok h
  read_client_hello-at e =
      rw
        (
          index-at at bytes (aead_to_u8 h.aead) (h.x25519_public ++ r33) e,
          aead_lem h.aead,
          slice-at (at + 1) 32 bytes h.x25519_public r33 e1 w.keys_fit.x25519_fits (omega arith),
          slice-at (at + 33) 32 bytes h.identity r65 e33 w.keys_fit.identity_fits (omega arith),
          slice-at (at + 65) 32 bytes h.identity_public_key r97 e65 w.keys_fit.public_key_fits
              (omega arith),
          decode_capabilities-at h.capabilities (at + 97) bytes w.capabilities_fit e97,
        )
        refl
    where
      r97 : List ℕ
      r97 = encode_capabilities h.capabilities

      r65 : List ℕ
      r65 = h.identity_public_key ++ r97

      r33 : List ℕ
      r33 = h.identity ++ r65

      e1 : drop (at + 1) bytes ≡ h.x25519_public ++ r33
      e1 = skip at 1 (at + 1) bytes (aead_to_u8 h.aead ∷ []) (h.x25519_public ++ r33) refl e refl

      e33 : drop (at + 33) bytes ≡ r33
      e33 =
          skip (at + 1) 32 (at + 33) bytes h.x25519_public r33 (omega arith) e1
            w.keys_fit.x25519_fits

      e65 : drop (at + 65) bytes ≡ r65
      e65 =
          skip (at + 33) 32 (at + 65) bytes h.identity r65 (omega arith) e33
            w.keys_fit.identity_fits

      e97 : drop (at + 97) bytes ≡ r97
      e97 =
          skip (at + 65) 32 (at + 97) bytes h.identity_public_key r97 (omega arith) e65
            w.keys_fit.public_key_fits

module _ (h : ClientHello) (w : FitsClientHello h) where
  count : ℕ
  count = length h.supported_versions % 256

  count_lem : length h.supported_versions ≡ count
  unfolding count
  count_lem = omega (arith, w.versions_fit)

pub length-encode_client_hello :
    (h : ClientHello)
    → FitsClientHello h
    → length (encode_client_hello h) ≡ 129 + length h.supported_versions
unfolding encode_client_hello encode_capabilities
length-encode_client_hello h w = omega (
  arith,
  length-append h.supported_versions (client_hello_tail h),
  length-append h.x25519_public
      (h.identity ++ (h.identity_public_key ++ encode_capabilities h.capabilities)),
  length-append h.identity (h.identity_public_key ++ encode_capabilities h.capabilities),
  length-append h.identity_public_key (encode_capabilities h.capabilities),
  w.keys_fit.x25519_fits,
  w.keys_fit.identity_fits,
  w.keys_fit.public_key_fits,
)

-- A client hello whose numbers fit their types, with fewer than 256 versions and keys of 32 bytes,
-- is decoded from its encoding.
pub decode-encode_client_hello :
    (h : ClientHello) → FitsClientHello h → decode_client_hello (encode_client_hello h) ≡ ok h
unfolding encode_client_hello decode_client_hello count
decode-encode_client_hello h w =
    let bytes = encode_client_hello h in
    let n = count h w in
    let versions = h.supported_versions in
    let tail : drop (10 + n) bytes ≡ client_hello_tail h =
      skip 10 n (10 + n) bytes versions (client_hello_tail h) refl refl (count_lem h w) in
    rw
      (
        ge→ltb (length bytes) 80 (omega (arith, length-encode_client_hello h w)),
        from_be-to_be 8 h.connection_id (omega (arith, w.connection_id_fits)),
        indices-read n 10 bytes versions (client_hello_tail h) refl (count_lem h w),
        read_client_hello-at h (10 + n) bytes w tail,
      )
      refl

pub record FitsServerHello (h : ServerHello) : Type 0 where
  pub source_fits : h.source_connection_id < 2 ^ 64
  pub dest_fits : h.dest_connection_id < 2 ^ 64
  pub keys_fit : FitsKeys h.x25519_public h.identity h.identity_public_key
  pub proof_fits : length h.identity_proof ≡ 64
  pub capabilities_fit : FitsCapabilities h.capabilities

pub length-encode_server_hello :
    (h : ServerHello) → FitsServerHello h → length (encode_server_hello h) ≡ 201
unfolding encode_server_hello encode_capabilities
length-encode_server_hello h w =
    let caps = encode_capabilities h.capabilities in
    let proof = to_be 2 (length h.identity_proof % 2 ^ 16) ++ (h.identity_proof ++ caps) in
    omega (
      arith,
      length-append h.x25519_public (h.identity ++ (h.identity_public_key ++ proof)),
      length-append h.identity (h.identity_public_key ++ proof),
      length-append h.identity_public_key proof,
      length-append h.identity_proof caps,
      w.keys_fit.x25519_fits,
      w.keys_fit.identity_fits,
      w.keys_fit.public_key_fits,
      w.proof_fits,
    )

-- A server hello whose numbers fit their types, with keys of 32 bytes and a signature of 64, is
-- decoded from its encoding.
pub decode-encode_server_hello :
    (h : ServerHello) → FitsServerHello h → decode_server_hello (encode_server_hello h) ≡ ok h
unfolding encode_server_hello decode_server_hello
decode-encode_server_hello h w =
    rw
      (
        from_be-to_be 8 h.source_connection_id (omega (arith, w.source_fits)),
        from_be-to_be 8 h.dest_connection_id (omega (arith, w.dest_fits)),
        slice-at 17 32 bytes h.x25519_public r49 refl w.keys_fit.x25519_fits (omega arith),
        slice-at 49 32 bytes h.identity r81 e49 w.keys_fit.identity_fits (omega arith),
        slice-at 81 32 bytes h.identity_public_key r113 e81 w.keys_fit.public_key_fits
            (omega arith),
        be_at-to_be 2 proof_len 113 bytes r115 e113 (omega arith),
        slice-at 115 proof_len bytes h.identity_proof caps e115 proof_len_lem
            (omega (arith, proof_len_lem, w.proof_fits)),
        decode_capabilities-at h.capabilities (115 + proof_len) bytes w.capabilities_fit ecaps,
      )
      refl
  where
    proof_len : ℕ
    proof_len = length h.identity_proof % 2 ^ 16

    proof_len_lem : length h.identity_proof ≡ proof_len
    proof_len_lem = omega (arith, w.proof_fits)

    caps : List ℕ
    caps = encode_capabilities h.capabilities

    r115 : List ℕ
    r115 = h.identity_proof ++ caps

    r113 : List ℕ
    r113 = to_be 2 proof_len ++ r115

    r81 : List ℕ
    r81 = h.identity_public_key ++ r113

    r49 : List ℕ
    r49 = h.identity ++ r81

    r17 : List ℕ
    r17 = h.x25519_public ++ r49

    bytes : List ℕ
    bytes = encode_server_hello h

    e49 : drop 49 bytes ≡ r49
    e49 = skip 17 32 49 bytes h.x25519_public r49 refl refl w.keys_fit.x25519_fits

    e81 : drop 81 bytes ≡ r81
    e81 = skip 49 32 81 bytes h.identity r81 refl e49 w.keys_fit.identity_fits

    e113 : drop 113 bytes ≡ r113
    e113 = skip 81 32 113 bytes h.identity_public_key r113 refl e81 w.keys_fit.public_key_fits

    e115 : drop 115 bytes ≡ r115
    e115 = skip 113 2 115 bytes (to_be 2 proof_len) r115 refl e113 (length-to_be 2 proof_len)

    ecaps : drop (115 + proof_len) bytes ≡ caps
    ecaps = skip 115 proof_len (115 + proof_len) bytes h.identity_proof caps refl e115 proof_len_lem
