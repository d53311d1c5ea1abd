-- ===== src/Multipath/Limits.antt =====
-- The steps of the path manager on every branch: what they change, and which bounds they keep.

use aether_protocol.Prelude.{
  ℕ, ◌-◌, ◌/◌, ◌^◌, ◌<◌, ◌≤◌, ◌≡◌, ◌≢◌, ◌⊎◌, ◌↔◌, inl, inr, refl, ap, ◌∙◌, arith, true, false,
  Bool-cases, Option, none, some, Option-cases, leb, leb→le, leb→gt, gt→leb, ==_iff, ==_refl,
  if◌then◌else◌, length,
}
use aether_protocol.Errors.{Error, Result, ok, err, panic, diverged, ◌>>=◌}
use aether_protocol.Table.{lookup, modify}
use aether_protocol.Table.Laws.{lookup-insert, length-insert, lookup-map_values, contains-lookup}
use aether_protocol.Framing.Frame.{Frame, new_path_challenge}
use aether_protocol.Multipath.Path.{SocketAddr, PathState, new_path}
use aether_protocol.Multipath.Manager.{
  PathManager, create_path_challenge, handle_path_response, read_path_frame, short_id,
  challenged_path, confirmed, check_response, confirm, expects, check_timeouts, timed_out,
}

-- What a response is checked for.
pub record Matches (m : PathManager) (frame : Frame) (id : ℕ) : Type 0 where
  pub nonce : ℕ
  pub path : PathState
  pub read : read_path_frame frame ≡ ok (id, nonce)
  pub found : lookup id m.paths ≡ some path
  pub expected : path.challenge_nonce ≡ some nonce

expects_lem : (o : Option ℕ) (nonce : ℕ) → expects o nonce ≡ true → o ≡ some nonce
expects_lem none nonce e = cc
expects_lem (some n) nonce e = ap some ((==_iff n nonce).0 e)

Result-cases {ℓ} :
    {A : Type ℓ} (r : Result A)
    → ((a : A) × (r ≡ ok a)) ⊎ ((f : A → Result ℕ) (b : ℕ) → (r >>= f) ≢ ok b)
Result-cases (ok a) = inl (a, refl)
Result-cases (err e) = inr (λ f b h. cc)
Result-cases panic = inr (λ f b h. cc)
Result-cases diverged = inr (λ f b h. cc)

check_response_cases :
    (m : PathManager) (frame : Frame)
    → ((id : ℕ) × (check_response m frame ≡ ok id) × Matches m frame id)
      ⊎ ((id : ℕ) → check_response m frame ≢ ok id)
check_response_cases m frame = elim (Result-cases (read_path_frame frame)) [
  | inl ((id, nonce), e) ↦ elim (Option-cases (lookup id m.paths)) [
    | inl n ↦ inr (λ j. rw (e, n) (λ h. cc))
    | inr (path, f) ↦ elim (Bool-cases (expects path.challenge_nonce nonce)) [
      | inl x ↦ inl (
        id,
        rw (e, f, x) refl,
        record {
          nonce = nonce;
          path = path;
          read = e;
          found = f;
          expected = expects_lem path.challenge_nonce nonce x;
        },
      )
      | inr x ↦ inr (λ j. rw (e, f, x) (λ h. cc))
    ]
  ]
  | inr refused ↦ inr (λ j. refused _ j)
]

confirm-refused :
    (now : ℕ) (m : PathManager) (r : Result ℕ)
    → ((id : ℕ) → r ≢ ok id)
    → ((confirm now m r).0 ≡ m) × ((id : ℕ) → (confirm now m r).1 ≢ ok id)
confirm-refused now m (ok id) h = absurd (h id refl)
confirm-refused now m (err e) h = (refl, h)
confirm-refused now m panic h = (refl, h)
confirm-refused now m diverged h = (refl, h)

-- Either the response names a known path and carries the nonce of its open challenge, and then it
-- is accepted and that path alone is confirmed; or no id is returned and the manager is as it was.
pub handle_path_response_lem :
    (now : ℕ) (m : PathManager) (frame : Frame)
    → ((id : ℕ) × Matches m frame id
        × (handle_path_response now m frame
            ≡ (record m { paths = modify id (confirmed now) m.paths }, ok id)))
      ⊎ (((handle_path_response now m frame).0 ≡ m)
          × ((id : ℕ) → (handle_path_response now m frame).1 ≢ ok id))
unfolding handle_path_response
handle_path_response_lem now m frame = elim (check_response_cases m frame) [
  | inl (id, e, matches) ↦ inl (id, matches, rw e refl)
  | inr refused ↦ inr (confirm-refused now m (check_response m frame) refused)
]

-- At the limit, creating a challenge fails and changes nothing. Below it, it succeeds, and the
-- number of paths is within the limit afterwards.
pub create_path_challenge-bounded :
    (now nonce : ℕ) (m : PathManager) (local_addr remote_addr : SocketAddr)
    → let (after, answer) = create_path_challenge now nonce m local_addr remote_addr in
      ((m.max_paths ≤ length m.paths) × (after ≡ m) × (answer ≡ err Error.flow_control))
      ⊎ ((length m.paths < m.max_paths)
          × (length after.paths ≤ m.max_paths)
          × (answer ≡ ok (new_path_challenge (short_id m) m.next_path_id nonce, m.next_path_id)))
unfolding create_path_challenge
create_path_challenge-bounded now nonce m local_addr remote_addr =
    let path = challenged_path now nonce m.next_path_id local_addr remote_addr in
    elim (Bool-cases (leb m.max_paths (length m.paths))) [
      | inl e ↦ rw e (inl (leb→le _ _ e, refl, refl))
      | inr e ↦ rw e (
          inr (
            leb→gt _ _ e,
            ground (arith, leb→gt _ _ e, length-insert m.next_path_id path m.paths),
            refl,
          ))
    ]

-- There is room for a path, and the next id, which has wrapped around at 256, is that of an active
-- path. Creating a challenge puts a path in its place that is not active; the number of paths is
-- the same.
create_path_challenge_replaces :
    (now nonce : ℕ) (m : PathManager) (local_addr remote_addr : SocketAddr) (path : PathState)
    → length m.paths < m.max_paths
    → lookup m.next_path_id m.paths ≡ some path
    → path.active ≡ true
    → let after = (create_path_challenge now nonce m local_addr remote_addr).0 in
      (length after.paths ≡ length m.paths)
      × ((replaced : PathState) × (lookup m.next_path_id after.paths ≡ some replaced)
          × (replaced.active ≡ false)
          × (replaced.remote_addr ≡ remote_addr))
unfolding create_path_challenge new_path
create_path_challenge_replaces now nonce m local_addr remote_addr path room found is_active =
    let fresh = challenged_path now nonce m.next_path_id local_addr remote_addr in
    rw (gt→leb m.max_paths (length m.paths) room) (
      length-insert m.next_path_id fresh m.paths
          ∙ rw (contains-lookup m.next_path_id m.paths, found) refl,
      (
        fresh,
        rw (lookup-insert m.next_path_id m.next_path_id fresh m.paths, ==_refl m.next_path_id) refl,
        refl,
        refl,
      ),
    )

still_active :
    (now timeout_ms : ℕ) (path : PathState)
    → (now - path.last_active) / 1000000 < 2 ^ 64
    → ((if timed_out now timeout_ms path then record path { active = false } else path).active
        ≡ true)
      ↔ ((path.active ≡ true) × ((now - path.last_active) / 1000000 ≤ timeout_ms))
still_active now timeout_ms path fits =
    (λ h. (ground (arith, h), ground (arith, h)), λ (a, h). ground (arith, a, h))

-- A path that has been silent for less than 2^64 milliseconds is still there after a check for
-- timeouts, and is active exactly if it was active and has not been silent for longer than the
-- timeout.
check_timeouts_lem :
    (now : ℕ) (m : PathManager) (timeout_ms id : ℕ) (path : PathState)
    → lookup id m.paths ≡ some path
    → (now - path.last_active) / 1000000 < 2 ^ 64
    → (checked : PathState) × (lookup id (check_timeouts now m timeout_ms).paths ≡ some checked)
      × ((checked.active ≡ true)
          ↔ ((path.active ≡ true) × ((now - path.last_active) / 1000000 ≤ timeout_ms)))
unfolding check_timeouts
check_timeouts_lem now m timeout_ms id path found fits =
    let check : PathState → PathState =
      λ p. if timed_out now timeout_ms p then record p { active = false } else p in
    (
      check path,
      lookup-map_values id check m.paths ∙ rw found refl,
      still_active now timeout_ms path fits,
    )
