-- ===== src/Multipath/Path.antt =====
-- aether-core/src/multipath.rs: `PathState`. An `Instant` is a number of nanoseconds.
use aether_protocol.Prelude.{
  ℕ, ◌+◌, ◌*◌, Bool, true, false, not, Option, none, some, List, leb, ltb, if◌then◌else◌,
}

pub record SocketAddr : Type 0 where
  pub ip : List ℕ
  pub port : ℕ

pub record PathState : Type 0 where
  pub id : ℕ
  pub local_addr : SocketAddr
  pub remote_addr : SocketAddr
  pub active : Bool
  pub rtt_us : ℕ
  pub packets_lost : ℕ
  pub packets_sent : ℕ
  pub last_active : ℕ
  pub challenge_nonce : Option ℕ

unfoldable pub new_path : ℕ → ℕ → SocketAddr → SocketAddr → PathState
new_path now id local_addr remote_addr = record {
  id = id;
  local_addr = local_addr;
  remote_addr = remote_addr;
  active = false;
  rtt_us = 0;
  packets_lost = 0;
  packets_sent = 0;
  last_active = now;
  challenge_nonce = none;
}

-- The score of an active path in microseconds, as an exact fraction, numerator and denominator:
-- rtt · (1 + 10 · lost / sent). The f64 of the source rounds it, and divides it by 1000. The score
-- of another path is `none`, for f64::MAX.
unfoldable pub quality_score : PathState → Option (ℕ × ℕ)
quality_score path =
    if not path.active
    then none
    else if ltb 0 path.packets_sent
    then some (path.rtt_us * (path.packets_sent + 10 * path.packets_lost), path.packets_sent)
    else some (path.rtt_us, 1)

-- The first score is at most the second.
abbrev pub score_le : Option (ℕ × ℕ) → Option (ℕ × ℕ) → Bool
score_le s none = true
score_le none (some t) = false
score_le (some (m, k)) (some (n, l)) = leb (m * l) (n * k)
