-- ===== src/Handshake/Finished.antt =====
-- A Finished message proves that its sender holds the key and has seen the same messages.
use aether_protocol.Prelude.{ℕ, ◌≡◌, ◌≢◌, ◌⊎◌, refl, sym, Bool-cases, inl, inr, some, List}
use aether_protocol.Errors.{Error, ok, err}
use aether_protocol.Framing.Frame.{Frame}
use aether_protocol.Crypto.{
  Primitives, compute_finished, check_finished, equal_bytes, equal_bytes-eq, equal_bytes-ne,
}
use aether_protocol.Handshake.Context.{HandshakeContext, complete}
use aether_protocol.Handshake.Steps.{verify_finished, handle_finished_and_respond, finished_frame}

check_finished_cases :
    (prims : Primitives) (key transcript payload : List ℕ)
    → ((payload ≡ compute_finished prims key transcript)
        × (check_finished prims key transcript payload ≡ ok tt))
      ⊎ ((payload ≢ compute_finished prims key transcript)
          × (check_finished prims key transcript payload ≡ err Error.crypto))
unfolding check_finished
check_finished_cases prims key transcript payload =
    let code = compute_finished prims key transcript in
    elim (Bool-cases (equal_bytes code payload)) [
      | inl e ↦ inl (sym (equal_bytes-eq code payload e), rw e refl)
      | inr e ↦ inr ((λ same. equal_bytes-ne code payload e (sym same)), rw e refl)
    ]

-- A server has a key. If the message is the code of its transcript under that key,
-- `verify_finished` succeeds and completes the handshake; otherwise it is an error and the state
-- is as it was.
pub verify_finished_lem :
    (prims : Primitives) (ctx : HandshakeContext) (frame : Frame) (key : List ℕ)
    → ctx.session_key ≡ some key
    → ((frame.payload ≡ compute_finished prims key ctx.transcript)
        × (verify_finished prims ctx frame ≡ (record ctx { state = complete }, ok tt)))
      ⊎ ((frame.payload ≢ compute_finished prims key ctx.transcript)
          × (verify_finished prims ctx frame ≡ (ctx, err Error.crypto)))
unfolding verify_finished
verify_finished_lem prims ctx frame key k =
    elim (check_finished_cases prims key ctx.transcript frame.payload) [
      | inl (same, e) ↦ inl (same, rw (k, e) refl)
      | inr (differs, e) ↦ inr (differs, rw (k, e) refl)
    ]

-- A client has a key and knows the server's connection id. If the message is the code of its
-- transcript under that key, the call completes the handshake and answers with that code;
-- otherwise it is an error and the state is as it was.
pub handle_finished_and_respond_lem :
    (prims : Primitives) (ctx : HandshakeContext) (frame : Frame) (key : List ℕ) (peer_cid : ℕ)
    → ctx.session_key ≡ some key
    → ctx.peer_connection_id ≡ some peer_cid
    → ((frame.payload ≡ compute_finished prims key ctx.transcript)
        × (handle_finished_and_respond prims ctx frame
            ≡ (record ctx { state = complete }, ok (finished_frame prims ctx key peer_cid))))
      ⊎ ((frame.payload ≢ compute_finished prims key ctx.transcript)
          × (handle_finished_and_respond prims ctx frame ≡ (ctx, err Error.crypto)))
unfolding handle_finished_and_respond
handle_finished_and_respond_lem prims ctx frame key peer_cid k p =
    elim (check_finished_cases prims key ctx.transcript frame.payload) [
      | inl (same, e) ↦ inl (same, rw (k, e, p) refl)
      | inr (differs, e) ↦ inr (differs, rw (k, e, p) refl)
    ]
