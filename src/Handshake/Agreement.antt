-- ===== src/Handshake/Agreement.antt =====
-- Two sides that run the handshake over an undisturbed network end with the same key.
use aether_protocol.Prelude.{ℕ, ◌≡◌, refl, ap, arith, some, List, length}
use aether_protocol.Errors.{Error, ok, or_error}
use aether_protocol.Framing.Types.{FrameType, requires_long_header}
use aether_protocol.Framing.Frame.{new_long}
use aether_protocol.Crypto.{
  Primitives, Lawful, derive_session_key, compute_finished, check_finished, equal_bytes_refl,
  x25519_generate_keypair, x25519_dh, session_salt,
}
use aether_protocol.Crypto.Identity.{from_seed, compute_identity_hash, verify, sign}
use aether_protocol.Handshake.Capabilities.{negotiate}
use aether_protocol.Handshake.Hello.{
  new_client_hello, decode_client_hello, new_server_hello, decode_server_hello,
}
use aether_protocol.Handshake.HelloRoundTrip.{
  FitsClientHello, FitsServerHello, decode-encode_client_hello, decode-encode_server_hello,
  length-encode_client_hello, length-encode_server_hello,
}
use aether_protocol.Handshake.Setting.{Setting, FitsSetting, Agreed, over_wire-new_long}
use aether_protocol.Handshake.Context.{
  HandshakeContext, complete, new_client, new_server, derive_keys, create_client_hello,
  handle_client_hello,
}
use aether_protocol.Handshake.Steps.{
  handle_server_hello, create_finished, handle_finished_and_respond, verify_finished, over_wire,
  run_handshake, finished_frame,
}
use aether_protocol.Handshake.Exchange.{
  client_identity, server_identity, hello, hello_data, hello_frame, transcript1, agreed_caps,
  answer, answer_data, answer_frame, transcript2, shared, finished, client1, client2, server1,
}

module _ (prims : Primitives) (laws : Lawful prims) (s : Setting) (w : FitsSetting s) where
  hello-Fits : FitsClientHello (hello prims s)
  unfolding hello new_client_hello client_identity from_seed compute_identity_hash
  hello-Fits = record {
    connection_id_fits = w.client_id_fits;
    versions_fit = omega arith;
    keys_fit = record {
      x25519_fits = laws.length-x25519_public s.client_secret;
      identity_fits = laws.length-sha256 _;
      public_key_fits = laws.length-ed25519_public s.client_seed;
    };
    capabilities_fit = w.client_caps_fit;
  }

  answer-Fits : FitsServerHello (answer prims s)
  unfolding answer new_server_hello server_identity from_seed compute_identity_hash sign agreed_caps
      negotiate
  answer-Fits = record {
    source_fits = w.server_id_fits;
    dest_fits = w.client_id_fits;
    keys_fit = record {
      x25519_fits = laws.length-x25519_public s.server_secret;
      identity_fits = laws.length-sha256 _;
      public_key_fits = laws.length-ed25519_public s.server_seed;
    };
    proof_fits = laws.length-ed25519_sign s.server_seed (transcript1 prims s);
    capabilities_fit = record {
      streams_fit = ground (arith, w.server_caps_fit.streams_fit, w.client_caps_fit.streams_fit);
      data_fits = ground (arith, w.server_caps_fit.data_fits, w.client_caps_fit.data_fits);
      idle_fits = ground (arith, w.server_caps_fit.idle_fits, w.client_caps_fit.idle_fits);
    };
  }

  derived :
      (key : List ℕ) × (derive_session_key prims (shared prims s) (transcript2 prims s) ≡ ok key)
  unfolding derive_session_key
  derived =
      let (key, e, l) =
        laws.hkdf_total (some session_salt) (shared prims s) (transcript2 prims s) 32
          (omega arith) in
      (key, ap (λ k. or_error k Error.crypto) e)

  client_step1 :
      create_client_hello prims s.client_secret
        (new_client s.client_id)
        (client_identity prims s)
        s.client_caps
      ≡ (client1 prims s, ok (hello_frame prims s))
  unfolding create_client_hello client1 new_client transcript1 hello_data hello hello_frame
      x25519_generate_keypair
  client_step1 = refl

  decoded_hello : decode_client_hello (hello_frame prims s).payload ≡ ok (hello prims s)
  unfolding hello_frame new_long hello_data
  decoded_hello = decode-encode_client_hello (hello prims s) hello-Fits

  server_step1 :
      handle_client_hello prims s.server_id s.server_secret new_server
        (hello_frame prims s)
        (server_identity prims s)
        s.server_caps
      ≡ (server1 prims s derived.0, ok (answer_frame prims s))
  unfolding handle_client_hello server1 new_server hello_frame answer_frame new_long hello_data
      hello new_client_hello transcript1 transcript2 shared agreed_caps answer answer_data
      derive_keys x25519_generate_keypair
  server_step1 = rw (decoded_hello, derived.1) refl

  decoded_answer : decode_server_hello (answer_frame prims s).payload ≡ ok (answer prims s)
  unfolding answer_frame new_long answer_data
  decoded_answer = decode-encode_server_hello (answer prims s) answer-Fits

  proof_accepted :
      verify prims
        (server_identity prims s).public_key
        (transcript1 prims s)
        (answer prims s).identity_proof
      ≡ ok tt
  unfolding verify server_identity from_seed answer new_server_hello sign
  proof_accepted =
      rw (laws.own_key s.server_seed, laws.own_signature s.server_seed (transcript1 prims s)) refl

  client_step2 :
      handle_server_hello prims (client1 prims s) (answer_frame prims s)
      ≡ (client2 prims s derived.0, ok tt)
  unfolding handle_server_hello client1 client2 new_client answer_frame new_long answer_data
      transcript2 derive_keys shared x25519_dh answer new_server_hello
  client_step2 =
      rw
        (
          decoded_answer,
          answer-Fits.proof_fits,
          proof_accepted,
          laws.diffie_hellman_comm s.client_secret s.server_secret,
          derived.1,
        )
        refl

  finished_accepted :
      (key : List ℕ) → check_finished prims key (transcript2 prims s) (finished prims s key) ≡ ok tt
  unfolding check_finished finished
  finished_accepted key =
      rw (equal_bytes_refl (compute_finished prims key (transcript2 prims s))) refl

  server_finished :
      (key : List ℕ)
      → create_finished prims (server1 prims s key)
        ≡ ok (finished_frame prims (server1 prims s key) key s.client_id)
  unfolding create_finished server1 new_server
  server_finished key = refl

  client_step3 :
      (key : List ℕ)
      → handle_finished_and_respond prims
          (client2 prims s key)
          (finished_frame prims (server1 prims s key) key s.client_id)
        ≡ (
          record (client2 prims s key) { state = complete },
          ok (finished_frame prims (client2 prims s key) key s.server_id),
        )
  unfolding handle_finished_and_respond client2 server1 new_client new_server new_long finished
  client_step3 key = rw (finished_accepted key) refl

  server_step2 :
      (key : List ℕ)
      → verify_finished prims
          (server1 prims s key)
          (finished_frame prims (client2 prims s key) key s.server_id)
        ≡ (record (server1 prims s key) { state = complete }, ok tt)
  unfolding verify_finished client2 server1 new_client new_server new_long finished
  server_step2 key = rw (finished_accepted key) refl

  one_version : length (hello prims s).supported_versions ≡ 1
  unfolding hello new_client_hello
  one_version = refl

  wire_hello : over_wire (hello_frame prims s) ≡ ok (hello_frame prims s)
  unfolding hello_frame hello_data requires_long_header
  wire_hello =
      over_wire-new_long FrameType.initial s.client_id s.client_id (hello_data prims s) refl
        w.client_id_fits
        (omega (arith, length-encode_client_hello (hello prims s) hello-Fits, one_version))

  wire_answer : over_wire (answer_frame prims s) ≡ ok (answer_frame prims s)
  unfolding answer_frame answer_data requires_long_header
  wire_answer =
      over_wire-new_long FrameType.initial s.client_id s.server_id (answer_data prims s) refl
        w.server_id_fits (omega (arith, length-encode_server_hello (answer prims s) answer-Fits))

  wire_server_finished :
      (key : List ℕ)
      → let frame = finished_frame prims (server1 prims s key) key s.client_id in
        over_wire frame ≡ ok frame
  unfolding server1 new_server compute_finished requires_long_header finished
  wire_server_finished key =
      over_wire-new_long FrameType.handshake s.client_id s.server_id (finished prims s key) refl
        w.server_id_fits (omega (arith, laws.length-hmac_sha256 key (transcript2 prims s)))

  wire_client_finished :
      (key : List ℕ)
      → let frame = finished_frame prims (client2 prims s key) key s.server_id in
        over_wire frame ≡ ok frame
  unfolding client2 new_client compute_finished requires_long_header finished
  wire_client_finished key =
      over_wire-new_long FrameType.handshake s.server_id s.client_id (finished prims s key) refl
        w.client_id_fits (omega (arith, laws.length-hmac_sha256 key (transcript2 prims s)))

  run_lem :
      run_handshake prims s.server_id s.client_secret s.server_secret
        (new_client s.client_id)
        new_server
        (client_identity prims s)
        (server_identity prims s)
        s.client_caps
        s.server_caps
      ≡ ok (
        record (client2 prims s derived.0) { state = complete },
        record (server1 prims s derived.0) { state = complete },
      )
  unfolding run_handshake
  run_lem =
      rw
        (
          client_step1,
          wire_hello,
          server_step1,
          wire_answer,
          client_step2,
          server_finished derived.0,
          wire_server_finished derived.0,
          client_step3 derived.0,
          wire_client_finished derived.0,
          server_step2 derived.0,
        )
        refl

  pub run_handshake-Agreed :
      (client : HandshakeContext) × (server : HandshakeContext) × (run_handshake prims s.server_id
          s.client_secret s.server_secret
          (new_client s.client_id)
          new_server
          (from_seed prims s.client_seed)
          (from_seed prims s.server_seed)
          s.client_caps
          s.server_caps
        ≡ ok (client, server))
      × Agreed prims s client server
  unfolding client2 server1 new_client new_server agreed_caps client_identity server_identity
  run_handshake-Agreed = (
    record (client2 prims s derived.0) { state = complete },
    record (server1 prims s derived.0) { state = complete },
    run_lem,
    record {
      key = derived.0;
      client_key = refl;
      server_key = refl;
      one_transcript = refl;
      client_done = refl;
      server_done = refl;
      client_capabilities = refl;
      server_capabilities = refl;
      client_peer = refl;
      server_peer = refl;
      server_own = refl;
      client_knows = refl;
      server_knows = refl;
    },
  )
