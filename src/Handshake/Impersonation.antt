-- ===== src/Handshake/Impersonation.antt =====
-- What the client does not check: that the identity in the server's hello is that of its key.
use aether_protocol.Prelude.{ℕ, ◌^◌, ◌<◌, ◌≡◌, refl, some, List, ◌++◌, length, arith}
use aether_protocol.Errors.{ok}
use aether_protocol.Framing.Types.{FrameType, control_stream_id}
use aether_protocol.Framing.Frame.{new_long}
use aether_protocol.Crypto.{Primitives, Lawful, derive_session_key, x25519_dh, session_salt}
use aether_protocol.Crypto.Identity.{from_seed, verify, sign}
use aether_protocol.Handshake.Capabilities.{Capabilities}
use aether_protocol.Handshake.Hello.{ServerHello, new_server_hello, encode_server_hello}
use aether_protocol.Handshake.HelloRoundTrip.{FitsServerHello, decode-encode_server_hello}
use aether_protocol.Handshake.CapabilitiesRoundTrip.{FitsCapabilities}
use aether_protocol.Handshake.Context.{
  HandshakeContext, keys_derived, truncated, server_hello_label, derive_keys,
}
use aether_protocol.Handshake.Steps.{handle_server_hello}

-- An attacker's hello: signed with the key of `seed`, under the identity of someone else.
unfoldable pub forged_hello :
    Primitives → List ℕ → List ℕ → List ℕ → HandshakeContext → ℕ → Capabilities → ServerHello
forged_hello prims seed secret claimed ctx source caps =
    record (new_server_hello prims source ctx.our_connection_id (prims.x25519_public secret)
      (from_seed prims seed) ctx.transcript caps) { identity = claimed }

module _ (prims : Primitives) (laws : Lawful prims) (seed secret claimed own_secret : List ℕ)
    (ctx : HandshakeContext) (source : ℕ) (caps : Capabilities) where
  hello : ServerHello
  hello = forged_hello prims seed secret claimed ctx source caps

  forged-Fits :
      source < 2 ^ 64
      → ctx.our_connection_id < 2 ^ 64
      → length claimed ≡ 32
      → FitsCapabilities caps
      → FitsServerHello hello
  unfolding hello forged_hello new_server_hello sign from_seed
  forged-Fits s d c f = record {
    source_fits = s;
    dest_fits = d;
    keys_fit = record {
      x25519_fits = laws.length-x25519_public secret;
      identity_fits = c;
      public_key_fits = laws.length-ed25519_public seed;
    };
    proof_fits = laws.length-ed25519_sign seed ctx.transcript;
    capabilities_fit = f;
  }

  forged_accepted :
      verify prims hello.identity_public_key ctx.transcript hello.identity_proof ≡ ok tt
  unfolding verify hello forged_hello new_server_hello sign from_seed
  forged_accepted = rw (laws.own_key seed, laws.own_signature seed ctx.transcript) refl

  -- For lawful algorithms, a client that has drawn its secret accepts a server hello that is
  -- signed with any key under any identity of 32 bytes, if its numbers fit, and takes that
  -- identity for the server's.
  pub handle_server_hello-impersonated :
      ctx.x25519_secret ≡ some own_secret
      → source < 2 ^ 64
      → ctx.our_connection_id < 2 ^ 64
      → length claimed ≡ 32
      → FitsCapabilities caps
      → let frame =
          new_long FrameType.initial control_stream_id
            (truncated ctx.our_connection_id)
            source
            (encode_server_hello (forged_hello prims seed secret claimed ctx source caps)) in
        let answered = handle_server_hello prims ctx frame in
        (answered.1 ≡ ok tt)
        × (answered.0.peer_identity ≡ some claimed)
        × (answered.0.state ≡ keys_derived)
  unfolding handle_server_hello new_long derive_keys derive_session_key hello forged_hello
      new_server_hello
  handle_server_hello-impersonated k s d c f =
      let w = forged-Fits s d c f in
      let hello_data = encode_server_hello hello in
      let transcript = (ctx.transcript ++ server_hello_label) ++ hello_data in
      let shared = x25519_dh prims own_secret (prims.x25519_public secret) in
      let (key, e, l) = laws.hkdf_total (some session_salt) shared transcript 32 (omega arith) in
      rw (decode-encode_server_hello hello w, w.proof_fits, forged_accepted, k, e)
        (refl, refl, refl)
