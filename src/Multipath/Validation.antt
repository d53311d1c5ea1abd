-- ===== src/Multipath/Validation.antt =====
-- A path challenge that travels to the peer and back activates the path on both sides.

use aether_protocol.Prelude.{
  ℕ, ◌+◌, ◌%◌, ◌^◌, ◌<◌, ◌≡◌, ◌≢◌, inl, inr, refl, arith, true, some, Option-cases, gt→leb, ==_refl,
  length,
}
use aether_protocol.Prelude.Bytes.{from_be-to_be}
use aether_protocol.Errors.{ok}
use aether_protocol.Table.{Table, lookup, insert, modify}
use aether_protocol.Table.Laws.{lookup-insert, lookup-modify}
use aether_protocol.Framing.Frame.{
  Frame, encode_frame, decode_frame, new_path_challenge, new_path_response, new_short,
  add_extension,
}
use aether_protocol.Framing.Builders.{decode-path_frames}
use aether_protocol.Multipath.Path.{SocketAddr, PathState}
use aether_protocol.Multipath.Manager.{
  PathManager, create_path_challenge, handle_path_challenge, handle_path_response, extract_path_id,
  read_path_frame, short_id, challenged_path, touched_path, confirmed, check_response,
}

path_frame_read :
    (connection_id id nonce : ℕ)
    → nonce < 2 ^ 64
    → (read_path_frame (new_path_challenge connection_id id nonce) ≡ ok (id, nonce))
      × (read_path_frame (new_path_response connection_id id nonce) ≡ ok (id, nonce))
unfolding extract_path_id new_path_challenge new_path_response new_short add_extension
path_frame_read connection_id id nonce h =
    (rw (from_be-to_be 8 nonce h) refl, rw (from_be-to_be 8 nonce h) refl)

-- The path of the table is active and has no challenge open.
pub record IsActive (paths : Table PathState) (id : ℕ) : Type 0 where
  pub path : PathState
  pub found : lookup id paths ≡ some path
  pub is_active : path.active ≡ true

module _ (m peer : PathManager) (local_addr remote_addr peer_local peer_remote : SocketAddr)
    (nonce t0 t1 t2 : ℕ) where
  created : PathManager
  created = record m {
    next_path_id = (m.next_path_id + 1) % 256;
    paths =
        insert m.next_path_id (challenged_path t0 nonce m.next_path_id local_addr remote_addr)
          m.paths;
  }

  challenge : Frame
  challenge = new_path_challenge (short_id m) m.next_path_id nonce

  response : Frame
  response = new_path_response (short_id peer) m.next_path_id nonce

  created_path :
      lookup m.next_path_id created.paths
      ≡ some (challenged_path t0 nonce m.next_path_id local_addr remote_addr)
  unfolding created
  created_path =
      rw
        (
          lookup-insert m.next_path_id m.next_path_id
              (challenged_path t0 nonce m.next_path_id local_addr remote_addr) m.paths,
          ==_refl m.next_path_id,
        )
        refl

  response_checked : nonce < 2 ^ 64 → check_response created response ≡ ok m.next_path_id
  unfolding response
  response_checked h =
      rw ((path_frame_read (short_id peer) m.next_path_id nonce h).1, created_path, ==_refl nonce)
        refl

  touched : PathState
  touched = touched_path t1 (lookup m.next_path_id peer.paths) m.next_path_id peer_local peer_remote

  answered : PathManager
  answered = record peer { paths = insert m.next_path_id touched peer.paths }

  done : PathManager
  done = record created { paths = modify m.next_path_id (confirmed t2) created.paths }

  challenge_lem :
      length m.paths < m.max_paths
      → create_path_challenge t0 nonce m local_addr remote_addr
        ≡ (created, ok (challenge, m.next_path_id))
  unfolding create_path_challenge created challenge
  challenge_lem room = rw (gt→leb m.max_paths (length m.paths) room) refl

  answer_lem :
      nonce < 2 ^ 64
      → handle_path_challenge t1 peer challenge peer_remote peer_local
        ≡ (answered, ok (response, m.next_path_id))
  unfolding handle_path_challenge challenge answered response touched
  answer_lem h = rw (path_frame_read (short_id m) m.next_path_id nonce h).0 refl

  response_lem :
      nonce < 2 ^ 64 → handle_path_response t2 created response ≡ (done, ok m.next_path_id)
  unfolding handle_path_response done
  response_lem h = rw (response_checked h) refl

  touched_active : touched.active ≡ true
  unfolding touched
  touched_active = elim (Option-cases (lookup m.next_path_id peer.paths)) [
    | inl e ↦ rw e refl
    | inr (path, e) ↦ rw e refl
  ]

  peer-IsActive : IsActive answered.paths m.next_path_id
  unfolding answered
  peer-IsActive = record {
    path = touched;
    found =
        rw (lookup-insert m.next_path_id m.next_path_id touched peer.paths, ==_refl m.next_path_id)
          refl;
    is_active = touched_active;
  }

  own-IsActive : IsActive done.paths m.next_path_id
  unfolding done
  own-IsActive =
      let path = challenged_path t0 nonce m.next_path_id local_addr remote_addr in
      record {
        path = confirmed t2 path;
        found =
            rw
              (
                lookup-modify m.next_path_id m.next_path_id (confirmed t2) created.paths,
                ==_refl m.next_path_id,
                created_path,
              )
              refl;
        is_active = refl;
      }

  others_kept : (j : ℕ) → j ≢ m.next_path_id → lookup j done.paths ≡ lookup j m.paths
  unfolding done created
  others_kept j ne =
      let path = challenged_path t0 nonce m.next_path_id local_addr remote_addr in
      ground (
        arith,
        ne,
        lookup-modify m.next_path_id j (confirmed t2) created.paths,
        lookup-insert m.next_path_id j path m.paths,
      )

  -- A manager has room for a path, and the nonce is below 2^64. The challenge that it creates is
  -- decoded from the wire, the peer answers it, the answer is decoded from the wire and accepted;
  -- then the path is active on both sides, and every other path of the manager is as it was.
  pub path_validation :
      length m.paths < m.max_paths
      → nonce < 2 ^ 64
      → let id = m.next_path_id in
        let challenge = new_path_challenge (short_id m) id nonce in
        let response = new_path_response (short_id peer) id nonce in
        let sent = create_path_challenge t0 nonce m local_addr remote_addr in
        let answered = handle_path_challenge t1 peer challenge peer_remote peer_local in
        let done = handle_path_response t2 sent.0 response in
        (sent.1 ≡ ok (challenge, id))
        × (decode_frame (encode_frame challenge) ≡ ok challenge)
        × (answered.1 ≡ ok (response, id))
        × (decode_frame (encode_frame response) ≡ ok response)
        × (done.1 ≡ ok id)
        × IsActive answered.0.paths id
        × IsActive done.0.paths id
        × ((j : ℕ) → j ≢ id → lookup j done.0.paths ≡ lookup j m.paths)
  unfolding challenge response
  path_validation room h =
      let frames = decode-path_frames (short_id m) m.next_path_id nonce (omega arith) in
      let answers = decode-path_frames (short_id peer) m.next_path_id nonce (omega arith) in
      rw (challenge_lem room, answer_lem h, response_lem h)
        (refl, frames.0, refl, answers.1, refl, peer-IsActive, own-IsActive, others_kept)
