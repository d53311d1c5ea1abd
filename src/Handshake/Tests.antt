-- ===== src/Handshake/Tests.antt =====
-- Concrete runs of the handshake, with small stand-ins for the algorithms.
use aether_protocol.Prelude.{◌≡◌, ◌≢◌, ◌⊎◌, refl, arith, some, [], ◌∷◌}
use aether_protocol.Errors.{Error, ok, err, panic}
use aether_protocol.Framing.Types.{FrameType, control_stream_id}
use aether_protocol.Framing.Frame.{Frame, new_long}
use aether_protocol.Crypto.{compute_finished}
use aether_protocol.Crypto.Sample.{repeat, toy, toy-Lawful}
use aether_protocol.Crypto.Identity.{from_seed, sign, compute_identity_hash}
use aether_protocol.Handshake.Capabilities.{default_capabilities}
use aether_protocol.Handshake.Sample.{default-Fits}
use aether_protocol.Handshake.Hello.{
  ServerHello, ClientHello, decode_server_hello, decode_client_hello, encode_client_hello,
  encode_server_hello, new_client_hello, new_server_hello,
}
use aether_protocol.Handshake.HelloRoundTrip.{
  decode-encode_client_hello, decode-encode_server_hello,
}
use aether_protocol.Handshake.Context.{
  HandshakeContext, complete, keys_derived, new_client, new_server, truncated,
}
use aether_protocol.Handshake.Steps.{
  handle_server_hello, verify_finished, handle_finished_and_respond, finished_frame,
}
use aether_protocol.Handshake.Finished.{verify_finished_lem, handle_finished_and_respond_lem}
use aether_protocol.Handshake.Impersonation.{forged_hello, handle_server_hello-impersonated}
use aether_protocol.Handshake.Truncated.{decode_hello-panics}

abbrev a_hello : ClientHello
a_hello = new_client_hello 7 (repeat 32 1) (from_seed toy (5 ∷ [])) default_capabilities

decode-encode_client_hello_example : decode_client_hello (encode_client_hello a_hello) ≡ ok a_hello
unfolding new_client_hello from_seed default_capabilities compute_identity_hash
decode-encode_client_hello_example = decode-encode_client_hello a_hello record {
  connection_id_fits = omega arith;
  versions_fit = omega arith;
  keys_fit = record { x25519_fits = refl; identity_fits = refl; public_key_fits = refl };
  capabilities_fit = default-Fits;
}

abbrev an_answer : ServerHello
an_answer =
    new_server_hello toy 9 7 (repeat 32 1) (from_seed toy (5 ∷ [])) (1 ∷ []) default_capabilities

decode-encode_server_hello_example :
    decode_server_hello (encode_server_hello an_answer) ≡ ok an_answer
unfolding new_server_hello from_seed default_capabilities sign compute_identity_hash
decode-encode_server_hello_example = decode-encode_server_hello an_answer record {
  source_fits = omega arith;
  dest_fits = omega arith;
  keys_fit = record { x25519_fits = refl; identity_fits = refl; public_key_fits = refl };
  proof_fits = refl;
  capabilities_fit = default-Fits;
}

-- A context that holds a key, and one that waits for a hello.
abbrev keyed : HandshakeContext
keyed = record new_server {
  session_key = some (4 ∷ []);
  peer_connection_id = some 7;
  transcript = 1 ∷ 2 ∷ [];
}

abbrev waiting : HandshakeContext
waiting = record (new_client 7) { x25519_secret = some (1 ∷ []); transcript = 1 ∷ 2 ∷ [] }

abbrev bad_finished : Frame
bad_finished = new_long FrameType.handshake control_stream_id 0 7 (repeat 32 1)

verify_finished_lem_example :
    ((bad_finished.payload ≡ compute_finished toy (4 ∷ []) keyed.transcript)
      × (verify_finished toy keyed bad_finished ≡ (record keyed { state = complete }, ok tt)))
    ⊎ ((bad_finished.payload ≢ compute_finished toy (4 ∷ []) keyed.transcript)
        × (verify_finished toy keyed bad_finished ≡ (keyed, err Error.crypto)))
verify_finished_lem_example = verify_finished_lem toy keyed bad_finished (4 ∷ []) refl

handle_finished_and_respond_lem_example :
    ((bad_finished.payload ≡ compute_finished toy (4 ∷ []) keyed.transcript)
      × (handle_finished_and_respond toy keyed bad_finished
          ≡ (record keyed { state = complete }, ok (finished_frame toy keyed (4 ∷ []) 7))))
    ⊎ ((bad_finished.payload ≢ compute_finished toy (4 ∷ []) keyed.transcript)
        × (handle_finished_and_respond toy keyed bad_finished ≡ (keyed, err Error.crypto)))
handle_finished_and_respond_lem_example =
    handle_finished_and_respond_lem toy keyed bad_finished (4 ∷ []) 7 refl refl

handle_server_hello-impersonated_example :
    let frame =
      new_long FrameType.initial control_stream_id (truncated waiting.our_connection_id) 9 (
        encode_server_hello
          (forged_hello toy (6 ∷ []) (2 ∷ []) (repeat 32 9) waiting 9 default_capabilities)) in
    let answered = handle_server_hello toy waiting frame in
    (answered.1 ≡ ok tt)
    × (answered.0.peer_identity ≡ some (repeat 32 9))
    × (answered.0.state ≡ keys_derived)
unfolding new_client
handle_server_hello-impersonated_example =
    handle_server_hello-impersonated toy toy-Lawful (6 ∷ []) (2 ∷ []) (repeat 32 9) (1 ∷ []) waiting
      9 default_capabilities refl (omega arith) (omega arith) refl default-Fits

decode_hello-panics_example :
    (decode_server_hello (repeat 136 0) ≡ panic) × (decode_client_hello (repeat 80 255) ≡ panic)
decode_hello-panics_example =
    decode_hello-panics (repeat 136 0) (repeat 80 255) 254 (omega arith) (omega arith) refl
      (omega arith)
