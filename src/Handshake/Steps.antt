-- ===== src/Handshake/Steps.antt =====
-- aether-core/src/handshake.rs: the later steps of `HandshakeContext`, and the exchange of the four
-- packets that `connect` and `accept` of aether-core/src/connection.rs make between the two sides.
use aether_protocol.Prelude.{ℕ, some, List, ◌++◌, ◌==◌, length}
use aether_protocol.Errors.{Error, Result, ok, ◌>>=◌, ◌>>◌, or_error, guard}
use aether_protocol.Framing.Types.{FrameType, control_stream_id}
use aether_protocol.Framing.Frame.{Frame, new_long, encode_frame, decode_frame}
use aether_protocol.Crypto.{Primitives, compute_finished, check_finished}
use aether_protocol.Crypto.Identity.{Identity, verify}
use aether_protocol.Handshake.Capabilities.{Capabilities}
use aether_protocol.Handshake.Hello.{ServerHello, decode_server_hello}
use aether_protocol.Handshake.Context.{
  HandshakeContext, keys_derived, complete, server_hello_label, try_on, then_on, truncated,
  derive_keys, create_client_hello, handle_client_hello,
}

-- What the client keeps of the server's hello before it checks the signature.
abbrev pub adopt_server_hello : HandshakeContext → ServerHello → HandshakeContext
adopt_server_hello ctx hello = record ctx {
  peer_connection_id = some hello.source_connection_id;
  peer_x25519_public = some hello.x25519_public;
  peer_identity = some hello.identity;
}

-- The signature's length, then the signature of the transcript so far.
abbrev pub check_proof : Primitives → HandshakeContext → ServerHello → Result (Unit {0})
check_proof prims ctx hello = do
  guard (length hello.identity_proof == 64) Error.crypto
  verify prims hello.identity_public_key ctx.transcript hello.identity_proof

unfoldable pub handle_server_hello :
    Primitives → HandshakeContext → Frame → HandshakeContext × Result (Unit {0})
handle_server_hello prims ctx frame = try_on ctx (decode_server_hello frame.payload) (λ hello.
    let ctx = adopt_server_hello ctx hello in
    try_on ctx (check_proof prims ctx hello) (λ done.
      let ctx = record ctx {
        transcript = (ctx.transcript ++ server_hello_label) ++ frame.payload;
      } in
      then_on (derive_keys prims ctx) (λ ctx done.
        (record ctx { capabilities = some hello.capabilities; state = keys_derived }, ok tt))))

abbrev pub finished_frame : Primitives → HandshakeContext → List ℕ → ℕ → Frame
finished_frame prims ctx session_key peer_cid =
    new_long FrameType.handshake control_stream_id (truncated peer_cid) ctx.our_connection_id
      (compute_finished prims session_key ctx.transcript)

unfoldable pub create_finished : Primitives → HandshakeContext → Result Frame
create_finished prims ctx = do
  session_key ← or_error ctx.session_key Error.invalid_state
  peer_cid ← or_error ctx.peer_connection_id Error.invalid_state
  ok (finished_frame prims ctx session_key peer_cid)

unfoldable pub handle_finished_and_respond :
    Primitives → HandshakeContext → Frame → HandshakeContext × Result Frame
handle_finished_and_respond prims ctx frame =
    try_on ctx (or_error ctx.session_key Error.invalid_state) (λ session_key.
      try_on ctx (check_finished prims session_key ctx.transcript frame.payload) (λ done.
        let ctx = record ctx { state = complete } in
        try_on ctx (or_error ctx.peer_connection_id Error.invalid_state)
          (λ peer_cid. (ctx, ok (finished_frame prims ctx session_key peer_cid)))))

unfoldable pub verify_finished :
    Primitives → HandshakeContext → Frame → HandshakeContext × Result (Unit {0})
verify_finished prims ctx frame =
    try_on ctx (or_error ctx.session_key Error.invalid_state) (λ session_key.
      try_on ctx (check_finished prims session_key ctx.transcript frame.payload)
        (λ done. (record ctx { state = complete }, ok tt)))

-- The result of a step with the state that it left.
abbrev pub with_state {ℓ} :
    {A : Type ℓ} → HandshakeContext × Result A → Result (HandshakeContext × A)
with_state (ctx, r) = r >>= λ a. ok (ctx, a)

-- A frame sent by one side and decoded by the other, on a network that neither drops nor alters it.
abbrev pub over_wire : Frame → Result Frame
over_wire frame = decode_frame (encode_frame frame)

-- The bodies of `perform_client_handshake` and `accept`, packet by packet.
unfoldable pub run_handshake :
    Primitives
    → ℕ
    → List ℕ
    → List ℕ
    → HandshakeContext
    → HandshakeContext
    → Identity
    → Identity
    → Capabilities
    → Capabilities
    → Result (HandshakeContext × HandshakeContext)
run_handshake prims random_id client_random server_random client server client_identity
      server_identity client_caps server_caps =
    do
      (client, ch) ←
          with_state (create_client_hello prims client_random client client_identity client_caps)
      ch ← over_wire ch
      (server, sh) ←
          with_state (
            handle_client_hello prims random_id server_random server ch server_identity server_caps)
      sh ← over_wire sh
      (client, done) ← with_state (handle_server_hello prims client sh)
      sf ← create_finished prims server
      sf ← over_wire sf
      (client, cf) ← with_state (handle_finished_and_respond prims client sf)
      cf ← over_wire cf
      (server, done) ← with_state (verify_finished prims server cf)
      ok (client, server)
