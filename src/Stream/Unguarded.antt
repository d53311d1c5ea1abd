-- ===== src/Stream/Unguarded.antt =====
-- What the manager does not check about the ids that the peer takes.
use aether_protocol.Prelude.{
  ℕ, ◌+◌, ◌%◌, ◌≤◌, ◌<◌, ◌≡◌, refl, ◌∙◌, ap, arith, true, false, Option, none, some, length, ◌==◌,
  ==_refl,
}
use aether_protocol.Errors.{Error, Result, ok, or_error}
use aether_protocol.Table.{lookup, contains}
use aether_protocol.Table.Laws.{is_some, lookup-insert, contains-lookup, length-insert}
use aether_protocol.Framing.Types.{max_stream_id}
use aether_protocol.Stream.State.{Stream, new_stream}
use aether_protocol.Stream.Manager.{
  StreamManager, own_next, open_stream, accept_stream, stream_count, has_stream, get_stream,
}
use aether_protocol.Stream.Ids.{accept_stream-new, open_stream-eq}

-- Any id that is free is accepted, whatever its parity and however many streams there are.
accept_stream_unbounded :
    (m : StreamManager) (id : ℕ)
    → has_stream m id ≡ false
    → ((accept_stream m id).1 ≡ ok tt) × (stream_count (accept_stream m id).0 ≡ stream_count m + 1)
unfolding has_stream stream_count
accept_stream_unbounded m id e =
    let s = new_stream id (id % 2 == 0) m.initial_stream_window in
    (
      ap (λ (r : StreamManager × Result (Unit {0})). r.1) (accept_stream-new m id e),
      ap (λ (r : StreamManager × Result (Unit {0})). length r.0.streams) (accept_stream-new m id e)
          ∙ length-insert id s m.streams
          ∙ rw e (omega arith),
    )

-- If a stream stands under the manager's next own id, which is within the greatest one, and there
-- is room, `open_stream` succeeds and puts a new stream in its place; the number of streams is the
-- same.
pub open_stream_replaces :
    (m : StreamManager) (s : Stream)
    → length m.streams < m.max_streams
    → own_next m ≤ max_stream_id
    → get_stream m (own_next m) ≡ ok s
    → let id = own_next m in
      ((open_stream m).1 ≡ ok id)
      × (get_stream (open_stream m).0 id ≡ ok (new_stream id m.is_client m.initial_stream_window))
      × (stream_count (open_stream m).0 ≡ stream_count m)
unfolding get_stream stream_count
open_stream_replaces m s room left there =
    let id = own_next m in
    let s' = new_stream id m.is_client m.initial_stream_window in
    let found : contains id m.streams ≡ true =
      contains-lookup id m.streams ∙ found_of (lookup id m.streams) id s there in
    (
      ap (λ (r : StreamManager × Result ℕ). r.1) (open_stream-eq m room left),
      ap
            (λ (r : StreamManager × Result ℕ).
              or_error (lookup id r.0.streams) (Error.stream_closed id))
            (open_stream-eq m room left)
          ∙ rw (lookup-insert id id s' m.streams, ==_refl id) refl,
      ap (λ (r : StreamManager × Result ℕ). length r.0.streams) (open_stream-eq m room left)
          ∙ length-insert id s' m.streams
          ∙ rw found refl,
    )
  where
    found_of :
        (o : Option Stream) (id : ℕ) (s : Stream)
        → or_error o (Error.stream_closed id) ≡ ok s
        → is_some o ≡ true
    found_of none id s e = cc
    found_of (some t) id s e = refl
