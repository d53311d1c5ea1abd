-- ===== src/Stream/Closing.antt =====
-- `close_stream` and `shutdown_stream`: which stream goes, which stays, and that no other changes.
use aether_protocol.Prelude.{
  ℕ, ◌≡◌, ◌≢◌, refl, ◌∙◌, ap, arith, Bool, true, false, Option, none, some, ◌==◌, if◌then◌else◌,
  ==_iff, inl, inr, Bool-cases,
}
use aether_protocol.Errors.{Error, ok, err, or_error}
use aether_protocol.Table.{lookup}
use aether_protocol.Table.Laws.{is_some, lookup-insert, lookup-remove}
use aether_protocol.Stream.State.{
  Stream, StreamState, idle, is_open, half_closed_local, half_closed_remote, closed, is_closed,
  close_read, close_write, closed_for_reading, closed_for_writing,
}
use aether_protocol.Stream.Manager.{
  StreamManager, close_stream, shutdown_stream, on_stream, put_or_remove, get_stream,
}

-- What stands at the id after a stream was changed there.
abbrev pub after_change : (Stream → Stream) → Option Stream → Option Stream
after_change change none = none
after_change change (some s) = if is_closed (change s).state then none else some (change s)

put-lookup :
    (m : StreamManager) (id : ℕ) (s : Stream) (j : ℕ)
    → lookup j (put_or_remove m id s).streams
      ≡ (if id == j then (if is_closed s.state then none else some s) else lookup j m.streams)
put-lookup m id s j = elim (Bool-cases (is_closed s.state)) [
  | inl e ↦ rw e (lookup-remove id j m.streams)
  | inr e ↦ rw e (lookup-insert id j s m.streams)
]

on_stream-lookup :
    (m : StreamManager) (id : ℕ) (change : Stream → Stream) (o : Option Stream) (j : ℕ)
    → lookup id m.streams ≡ o
    → lookup j (on_stream m id change o).0.streams
      ≡ (if id == j then after_change change o else lookup j m.streams)
on_stream-lookup m id change none j e = ground (arith, ==_iff id j)
on_stream-lookup m id change (some s) j e = put-lookup m id (change s) j

-- `close_stream` succeeds exactly if the stream is there. A stream that is closed after
-- `close_read` is removed, one that is not stays as `close_read` leaves it, and no other stream
-- changes.
pub close_stream_lem :
    (m : StreamManager) (id : ℕ)
    → ((j : ℕ)
        → lookup j (close_stream m id).0.streams
          ≡ (if id == j then after_change close_read (lookup id m.streams) else lookup j m.streams))
      × ((close_stream m id).1
          ≡ (if is_some (lookup id m.streams) then ok tt else err (Error.stream_closed id)))
unfolding close_stream
close_stream_lem m id = (
  λ j. on_stream-lookup m id close_read (lookup id m.streams) j refl,
  result (lookup id m.streams),
)
  where
    result :
        (o : Option Stream)
        → (on_stream m id close_read o).1
          ≡ (if is_some o then ok tt else err (Error.stream_closed id))
    result none = refl
    result (some s) = refl

shut_is_closed : (s : Stream) → s.state ≢ idle → is_closed (close_read (close_write s)).state ≡ true
unfolding is_closed close_read close_write
shut_is_closed s h = closes s.state h
  where
    closes :
        (t : StreamState) → t ≢ idle → is_closed (closed_for_reading (closed_for_writing t)) ≡ true
    closes idle h = absurd (h refl)
    closes is_open h = refl
    closes half_closed_local h = refl
    closes half_closed_remote h = refl
    closes closed h = refl

-- A stream that is there and not idle is removed by `shutdown_stream`, which succeeds; every other
-- stream is as it was.
shutdown_stream_lem :
    (m : StreamManager) (id : ℕ) (s : Stream)
    → get_stream m id ≡ ok s
    → s.state ≢ idle
    → ((shutdown_stream m id).1 ≡ ok tt)
      × ((j : ℕ)
          → get_stream (shutdown_stream m id).0 j
            ≡ (if id == j then err (Error.stream_closed j) else get_stream m j))
unfolding get_stream shutdown_stream
shutdown_stream_lem m id s there h =
    let found : lookup id m.streams ≡ some s = some_of (lookup id m.streams) there in
    (
      rw found refl,
      λ j.
          ap (λ o. or_error o (Error.stream_closed j))
            (on_stream-lookup m id (λ t. close_read (close_write t)) (lookup id m.streams) j refl
              ∙ rw (found, shut_is_closed s h) refl)
          ∙ pick (id == j) j (lookup j m.streams),
    )
  where
    some_of : (o : Option Stream) → or_error o (Error.stream_closed id) ≡ ok s → o ≡ some s
    some_of none e = cc
    some_of (some t) e = cc

    pick :
        (b : Bool) (j : ℕ) (o : Option Stream)
        → or_error (if b then none else o) (Error.stream_closed j)
          ≡ (if b then err (Error.stream_closed j) else or_error o (Error.stream_closed j))
    pick true j o = refl
    pick false j o = refl
