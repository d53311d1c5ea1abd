-- ===== src/Multipath/Tests.antt =====
-- Concrete runs of the path manager.
use aether_protocol.Prelude.{ℕ, ◌<◌, ◌≤◌, ◌≡◌, ◌≢◌, ◌⊎◌, arith, true, [], ◌∷◌, length}
use aether_protocol.Errors.{Error, ok, err}
use aether_protocol.Table.{lookup, modify}
use aether_protocol.Framing.Frame.{
  new_path_challenge, new_path_response, encode_frame, decode_frame,
}
use aether_protocol.Multipath.Path.{SocketAddr, PathState, new_path}
use aether_protocol.Multipath.Manager.{
  PathManager, new_path_manager, create_path_challenge, handle_path_challenge, handle_path_response,
  short_id, confirmed,
}
use aether_protocol.Multipath.Validation.{IsActive, path_validation}
use aether_protocol.Multipath.Limits.{
  Matches, handle_path_response_lem, create_path_challenge-bounded,
}

abbrev here : SocketAddr
here = record { ip = 10 ∷ 0 ∷ 0 ∷ 1 ∷ []; port = 9000 }

abbrev there : SocketAddr
there = record { ip = 10 ∷ 0 ∷ 0 ∷ 2 ∷ []; port = 9000 }

-- A manager whose counter has wrapped around to its primary path.
abbrev primary : PathState
primary = record (new_path 0 0 here there) { active = true }

abbrev wrapped : PathManager
wrapped = record {
  paths = (0, primary) ∷ [];
  next_path_id = 0;
  primary_path_id = 0;
  max_paths = 4;
  connection_id = 0x1122334455667788;
}

abbrev fresh : PathManager
fresh = new_path_manager 0x1122334455667788 4

path_validation_example :
    let id = fresh.next_path_id in
    let challenge = new_path_challenge (short_id fresh) id 77 in
    let response = new_path_response (short_id wrapped) id 77 in
    let sent = create_path_challenge 1 77 fresh here there in
    let answered = handle_path_challenge 2 wrapped challenge here there in
    let done = handle_path_response 3 sent.0 response in
    (sent.1 ≡ ok (challenge, id))
    × (decode_frame (encode_frame challenge) ≡ ok challenge)
    × (answered.1 ≡ ok (response, id))
    × (decode_frame (encode_frame response) ≡ ok response)
    × (done.1 ≡ ok id)
    × IsActive answered.0.paths id
    × IsActive done.0.paths id
    × ((j : ℕ) → j ≢ id → lookup j done.0.paths ≡ lookup j fresh.paths)
unfolding new_path_manager
path_validation_example =
    path_validation fresh wrapped here there there here 77 1 2 3 (omega arith) (omega arith)

handle_path_response_lem_example :
    let frame = new_path_response 5 0 77 in
    ((id : ℕ) × Matches wrapped frame id
      × (handle_path_response 9 wrapped frame
          ≡ (record wrapped { paths = modify id (confirmed 9) wrapped.paths }, ok id)))
    ⊎ (((handle_path_response 9 wrapped frame).0 ≡ wrapped)
        × ((id : ℕ) → (handle_path_response 9 wrapped frame).1 ≢ ok id))
handle_path_response_lem_example = handle_path_response_lem 9 wrapped (new_path_response 5 0 77)

create_path_challenge-bounded_example :
    let (after, answer) = create_path_challenge 1 77 wrapped here there in
    ((wrapped.max_paths ≤ length wrapped.paths)
      × (after ≡ wrapped)
      × (answer ≡ err Error.flow_control))
    ⊎ ((length wrapped.paths < wrapped.max_paths)
        × (length after.paths ≤ wrapped.max_paths)
        × (answer ≡ ok (new_path_challenge (short_id wrapped) 0 77, 0)))
create_path_challenge-bounded_example = create_path_challenge-bounded 1 77 wrapped here there
