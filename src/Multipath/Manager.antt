-- ===== src/Multipath/Manager.antt =====
-- aether-core/src/multipath.rs: `PathManager`. The clock's reading and a random nonce are arguments.
use aether_protocol.Prelude.{
  ℕ, ◌+◌, ◌*◌, ◌-◌, ◌/◌, ◌%◌, ◌^◌, Bool, true, false, Option, none, some, List, [], ◌∷◌, leb, ltb,
  ◌==◌, if◌then◌else◌, length,
}
use aether_protocol.Errors.{
  Error, Result, ok, err, panic, diverged, ◌>>=◌, ◌>>◌, guard, or_error, index,
}
use aether_protocol.Table.{Table, lookup, insert, modify, filter_values, map_values}
use aether_protocol.Framing.Types.{is_path_id}
use aether_protocol.Framing.Extension.{Extension}
use aether_protocol.Framing.Header.{be_at}
use aether_protocol.Framing.Frame.{Frame, new_path_challenge, new_path_response}
use aether_protocol.Multipath.Path.{SocketAddr, PathState, new_path, quality_score, score_le}

pub record PathManager : Type 0 where
  pub paths : Table PathState
  pub next_path_id : ℕ
  pub primary_path_id : ℕ
  pub max_paths : ℕ
  pub connection_id : ℕ

unfoldable pub new_path_manager : ℕ → ℕ → PathManager
new_path_manager connection_id max_paths = record {
  paths = [];
  next_path_id = 1;
  primary_path_id = 0;
  max_paths = max_paths;
  connection_id = connection_id;
}

unfoldable pub register_primary : ℕ → PathManager → SocketAddr → SocketAddr → PathManager × ℕ
register_primary now m local_addr remote_addr =
    let path = record (new_path now 0 local_addr remote_addr) { active = true } in
    (record m { paths = insert 0 path m.paths; primary_path_id = 0 }, 0)

-- `(connection_id >> 32) as u32`.
abbrev pub short_id : PathManager → ℕ
short_id m = m.connection_id / 2 ^ 32 % 2 ^ 32

abbrev pub challenged_path : ℕ → ℕ → ℕ → SocketAddr → SocketAddr → PathState
challenged_path now nonce id local_addr remote_addr =
    record (new_path now id local_addr remote_addr) {
      challenge_nonce = some nonce;
      last_active = now;
    }

unfoldable pub create_path_challenge :
    ℕ → ℕ → PathManager → SocketAddr → SocketAddr → PathManager × Result (Frame × ℕ)
create_path_challenge now nonce m local_addr remote_addr =
    if leb m.max_paths (length m.paths) then (m, err Error.flow_control) else (
      record m {
        next_path_id = (m.next_path_id + 1) % 256;
        paths =
            insert m.next_path_id (challenged_path now nonce m.next_path_id local_addr remote_addr)
              m.paths;
      },
      ok (new_path_challenge (short_id m) m.next_path_id nonce, m.next_path_id),
    )

-- The first extension with a path id decides.
unfoldable pub extract_path_id : List Extension → Result ℕ
extract_path_id [] = err Error.protocol_violation
extract_path_id (ext ∷ extensions) =
    let rest = extract_path_id extensions in
    if is_path_id ext.ext_type
    then (if length ext.value == 0 then err Error.protocol_violation else index ext.value 0)
    else rest

abbrev pub read_nonce : Frame → Result ℕ
read_nonce frame =
    if leb 8 (length frame.payload) then be_at 8 frame.payload 0 else err Error.protocol_violation

-- The path id and the nonce, as both handlers read them.
abbrev pub read_path_frame : Frame → Result (ℕ × ℕ)
read_path_frame frame = do
  id ← extract_path_id frame.extensions
  nonce ← read_nonce frame
  ok (id, nonce)

-- `path.challenge_nonce == Some(nonce)`.
abbrev pub expects : Option ℕ → ℕ → Bool
expects none nonce = false
expects (some n) nonce = n == nonce

abbrev pub confirmed : ℕ → PathState → PathState
confirmed now path = record path { active = true; challenge_nonce = none; last_active = now }

-- What the response is checked for: its path, if all is well.
abbrev pub check_response : PathManager → Frame → Result ℕ
check_response m frame = do
  (id, nonce) ← read_path_frame frame
  path ← or_error (lookup id m.paths) Error.protocol_violation
  guard (expects path.challenge_nonce nonce) Error.crypto
  ok id

-- All checks come before the first write.
abbrev pub confirm : ℕ → PathManager → Result ℕ → PathManager × Result ℕ
confirm now m (ok id) = (record m { paths = modify id (confirmed now) m.paths }, ok id)
confirm now m r = (m, r)

unfoldable pub handle_path_response : ℕ → PathManager → Frame → PathManager × Result ℕ
handle_path_response now m frame = confirm now m (check_response m frame)

-- `entry(path_id).or_insert_with(…)`, then the writes through it.
abbrev pub touched_path : ℕ → Option PathState → ℕ → SocketAddr → SocketAddr → PathState
touched_path now none id local_addr remote_addr = record (new_path now id local_addr remote_addr) {
  remote_addr = remote_addr;
  last_active = now;
  active = true;
}
touched_path now (some path) id local_addr remote_addr = record path {
  remote_addr = remote_addr;
  last_active = now;
  active = true;
}

abbrev pub accept_challenge :
    ℕ → PathManager → SocketAddr → SocketAddr → Result (ℕ × ℕ) → PathManager × Result (Frame × ℕ)
accept_challenge now m remote_addr local_addr (ok (id, nonce)) =
    let path = touched_path now (lookup id m.paths) id local_addr remote_addr in
    (record m { paths = insert id path m.paths }, ok (new_path_response (short_id m) id nonce, id))
accept_challenge now m remote_addr local_addr (err e) = (m, err e)
accept_challenge now m remote_addr local_addr panic = (m, panic)
accept_challenge now m remote_addr local_addr diverged = (m, diverged)

unfoldable pub handle_path_challenge :
    ℕ → PathManager → Frame → SocketAddr → SocketAddr → PathManager × Result (Frame × ℕ)
handle_path_challenge now m frame remote_addr local_addr =
    accept_challenge now m remote_addr local_addr (read_path_frame frame)

unfoldable pub deactivate_path : PathManager → ℕ → PathManager
deactivate_path m id = record m {
  paths = modify id (λ path. record path { active = false }) m.paths;
}

unfoldable pub active_paths : PathManager → Table PathState
active_paths m = filter_values (λ path. path.active) m.paths

-- `min_by`, which keeps the first of equal ones, over the rest of the entries.
abbrev pub min_path : ℕ × PathState → Table PathState → ℕ × PathState
min_path best [] = best
min_path best (entry ∷ rest) =
    let keep = min_path best rest in
    let change = min_path entry rest in
    if score_le (quality_score best.1) (quality_score entry.1) then keep else change

abbrev pub min_entry : Table PathState → Option (ℕ × PathState)
min_entry [] = none
min_entry (entry ∷ rest) = some (min_path entry rest)

unfoldable pub best_path : PathManager → Option (ℕ × PathState)
best_path m = min_entry (active_paths m)

-- The counters are u64.
unfoldable pub record_send : ℕ → PathManager → ℕ → PathManager
record_send now m id = record m {
  paths =
      modify id
        (λ path. record path { packets_sent = (path.packets_sent + 1) % 2 ^ 64; last_active = now })
        m.paths;
}

unfoldable pub record_loss : PathManager → ℕ → PathManager
record_loss m id = record m {
  paths =
      modify id (λ path. record path { packets_lost = (path.packets_lost + 1) % 2 ^ 64 }) m.paths;
}

-- `(old as f64 * 0.875 + new as f64 * 0.125) as u64`, which is exact for samples below 2^50.
abbrev pub smoothed : ℕ → ℕ → ℕ
smoothed old rtt_us = if old == 0 then rtt_us else (7 * old + rtt_us) / 8

unfoldable pub record_rtt : PathManager → ℕ → ℕ → PathManager
record_rtt m id rtt_us = record m {
  paths = modify id (λ path. record path { rtt_us = smoothed path.rtt_us rtt_us }) m.paths;
}

-- `duration_since` stops at zero; `as_millis() as u64`.
abbrev pub timed_out : ℕ → ℕ → PathState → Bool
timed_out now timeout_ms path =
    if path.active then ltb timeout_ms ((now - path.last_active) / 1000000 % 2 ^ 64) else false

unfoldable pub check_timeouts : ℕ → PathManager → ℕ → PathManager
check_timeouts now m timeout_ms = record m {
  paths =
      map_values
        (λ path. if timed_out now timeout_ms path then record path { active = false } else path)
        m.paths;
}
