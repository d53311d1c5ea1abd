-- ===== src/Stream/Ids.antt =====
-- The ids of a manager's streams: `open_stream` never hands out an id that is in use, as long as
-- the peer keeps to its own half of the ids.
use mathlib.Core.Path.{subst}
use aether_protocol.Prelude.{
  ℕ, ◌+◌, ◌%◌, ◌≤◌, ◌<◌, ◌≡◌, ◌≢◌, refl, ◌∙◌, ap, sym, arith, Bool, true, false, none, some, length,
  leb, ◌==◌, if◌then◌else◌, ge→ltb, gt→leb, le→leb, leb→le, leb→gt, inl, inr, Option-cases,
  Bool-cases,
}
use aether_protocol.Errors.{Error, Result, ok, err}
use aether_protocol.Table.{lookup, contains, insert}
use aether_protocol.Table.Laws.{is_some, lookup-insert, contains-lookup, length-insert}
use aether_protocol.Framing.Types.{max_stream_id}
use aether_protocol.Stream.State.{Stream, new_stream}
use aether_protocol.Stream.Manager.{
  StreamManager, own_next, advance, open_stream, accept_stream, new_stream_manager, stream_count,
  has_stream,
}

-- A client opens even ids, a server odd ones.
abbrev pub own_parity : StreamManager → ℕ
own_parity m = if m.is_client then 0 else 1

pub record IsValid (m : StreamManager) : Type 0 where
  pub parity : own_next m % 2 ≡ own_parity m
  pub positive : 0 < own_next m
  pub fresh :
      (k : ℕ) (s : Stream) → lookup k m.streams ≡ some s → k % 2 ≡ own_parity m → k < own_next m
  pub tagged : (k : ℕ) (s : Stream) → lookup k m.streams ≡ some s → s.id ≡ k

pub new_stream_manager-IsValid :
    (is_client : Bool) (n w c : ℕ) → IsValid (new_stream_manager is_client n w c)
unfolding new_stream_manager lookup
new_stream_manager-IsValid true n w c = record {
  parity = refl;
  positive = omega arith;
  fresh = λ k s e. cc;
  tagged = λ k s e. cc;
}
new_stream_manager-IsValid false n w c = record {
  parity = refl;
  positive = omega arith;
  fresh = λ k s e. cc;
  tagged = λ k s e. cc;
}

own-unused : (m : StreamManager) → IsValid m → lookup (own_next m) m.streams ≡ none
own-unused m v = elim (Option-cases (lookup (own_next m) m.streams)) [
  | inl e ↦ e
  | inr (s, e) ↦ absurd (omega (arith, v.fresh (own_next m) s e v.parity))
]

-- With room for a stream and an id left, `open_stream` takes its one successful branch.
pub open_stream-eq :
    (m : StreamManager)
    → length m.streams < m.max_streams
    → own_next m ≤ max_stream_id
    → open_stream m ≡ (
      record (advance m) {
        streams =
            insert
              (own_next m)
              (new_stream (own_next m) m.is_client m.initial_stream_window)
              m.streams;
      },
      ok (own_next m),
    )
unfolding open_stream
open_stream-eq m room left =
    rw (gt→leb m.max_streams (length m.streams) room, ge→ltb max_stream_id (own_next m) left) refl

own_parity-advance : (m : StreamManager) → own_parity (advance m) ≡ own_parity m
own_parity-advance m = ground arith

own_next-advance :
    (m : StreamManager) → own_next m ≤ max_stream_id → own_next (advance m) ≡ own_next m + 2
own_next-advance m h = ground arith

-- A manager that gained the stream `s` at `id`, and whose counter may have moved on.
gained-IsValid :
    (m m' : StreamManager) (id : ℕ) (s : Stream)
    → IsValid m
    → own_parity m' ≡ own_parity m
    → own_next m ≤ own_next m'
    → own_next m' % 2 ≡ own_parity m
    → ((j : ℕ) → lookup j m'.streams ≡ (if id == j then some s else lookup j m.streams))
    → s.id ≡ id
    → (id % 2 ≡ own_parity m → id < own_next m')
    → IsValid m'
gained-IsValid m m' id s v same more even found tag below = record {
  parity = even ∙ sym same;
  positive = omega (arith, v.positive);
  fresh = λ k s' e p. ground (arith, found k, v.fresh k s', below);
  tagged = λ k s' e. ground (arith, found k, v.tagged k s');
}

open_stream-full :
    (m : StreamManager)
    → m.max_streams ≤ length m.streams
    → open_stream m ≡ (m, err Error.flow_control)
unfolding open_stream
open_stream-full m h = rw (le→leb m.max_streams (length m.streams) h) refl

-- Opening a stream on a valid manager whose next id is within the greatest stream id keeps it
-- valid: the next own id has the own parity, is above every own id in use, and each stream stands
-- under its id.
open_stream-IsValid :
    (m : StreamManager) → IsValid m → own_next m ≤ max_stream_id → IsValid (open_stream m).0
open_stream-IsValid m v left = elim (Bool-cases (leb m.max_streams (length m.streams))) [
  | inl full ↦
      subst (λ (r : StreamManager × Result ℕ). IsValid r.0)
        (sym (open_stream-full m (leb→le m.max_streams (length m.streams) full))) v
  | inr room ↦
      let id = own_next m in
      let s = new_stream id m.is_client m.initial_stream_window in
      let next = own_next-advance m left in
      subst (λ (r : StreamManager × Result ℕ). IsValid r.0)
        (sym (open_stream-eq m (leb→gt m.max_streams (length m.streams) room) left))
        (gained-IsValid m (record (advance m) { streams = insert id s m.streams }) id s v
          (own_parity-advance m) (omega (arith, next)) (omega (arith, next, v.parity))
          (λ j. lookup-insert id j s m.streams) (unfold new_stream in refl)
          (λ p. omega (arith, next)))
]

pub accept_stream-new :
    (m : StreamManager) (id : ℕ)
    → contains id m.streams ≡ false
    → accept_stream m id ≡ (
      record m {
        streams = insert id (new_stream id (id % 2 == 0) m.initial_stream_window) m.streams;
      },
      ok tt,
    )
unfolding accept_stream
accept_stream-new m id e = rw e refl

-- Accepting an id of the peer's parity on a valid manager keeps it valid.
pub accept_stream-IsValid :
    (m : StreamManager) (id : ℕ)
    → IsValid m
    → id % 2 ≢ own_parity m
    → IsValid (accept_stream m id).0
accept_stream-IsValid m id v other = elim (Bool-cases (contains id m.streams)) [
  | inl there ↦ unfold accept_stream in rw there v
  | inr new ↦
      let s = new_stream id (id % 2 == 0) m.initial_stream_window in
      subst (λ (r : StreamManager × Result (Unit {0})). IsValid r.0)
        (sym (accept_stream-new m id new))
        (gained-IsValid m (record m { streams = insert id s m.streams }) id s v refl (omega arith)
          v.parity (λ j. lookup-insert id j s m.streams) (unfold new_stream in refl)
          (λ p. absurd (other p)))
]

-- On a valid manager with room for a stream and a next id within the greatest one, `open_stream`
-- succeeds. It hands out an id of the own parity that no stream has, adds a new stream there
-- within the limit, touches no other, and leaves the manager valid: the next own id has the own
-- parity and is above every own id in use, and each stream stands under its id.
pub open_stream_lem :
    (m : StreamManager)
    → IsValid m
    → length m.streams < m.max_streams
    → own_next m ≤ max_stream_id
    → let id = own_next m in
      let m' = (open_stream m).0 in
      ((open_stream m).1 ≡ ok id)
      × (has_stream m id ≡ false)
      × (id % 2 ≡ own_parity m)
      × (stream_count m' ≡ stream_count m + 1)
      × (stream_count m' ≤ m.max_streams)
      × IsValid m'
      × ((j : ℕ)
          → lookup j m'.streams ≡ (
              if id == j
              then some (new_stream id m.is_client m.initial_stream_window)
              else lookup j m.streams))
unfolding stream_count has_stream
open_stream_lem m v room left =
    let id = own_next m in
    let s = new_stream id m.is_client m.initial_stream_window in
    let unused : contains id m.streams ≡ false =
      contains-lookup id m.streams ∙ ap is_some (own-unused m v) in
    let after : (open_stream m).0.streams ≡ insert id s m.streams =
      ap (λ (r : StreamManager × Result ℕ). r.0.streams) (open_stream-eq m room left) in
    let count : length (open_stream m).0.streams ≡ length m.streams + 1 =
      ap length after ∙ length-insert id s m.streams ∙ rw unused (omega arith) in
    (
      ap (λ (r : StreamManager × Result ℕ). r.1) (open_stream-eq m room left),
      unused,
      v.parity,
      count,
      omega (arith, count),
      open_stream-IsValid m v left,
      λ j. ap (lookup j) after ∙ lookup-insert id j s m.streams,
    )
