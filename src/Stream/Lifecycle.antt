-- ===== src/Stream/Lifecycle.antt =====
-- A stream's life as a step relation: every call that changes it, in any order.
use aether_protocol.Prelude.{
  ℕ, ◌^◌, ◌≤◌, ◌<◌, ◌≡◌, refl, ◌∙◌, ap, arith, Bool, false, List, [], ◌∷◌, length,
}
use aether_protocol.Stream.FlowControl.{
  FlowControl, new_flow_control, can_send, reserve_send, update_window, received,
}
use aether_protocol.Stream.State.{
  Stream, StreamState, Fragment, idle, is_open, half_closed_local, half_closed_remote, closed,
  can_write, close_read, close_write, write, new_stream, receive_data, closed_for_reading,
  closed_for_writing,
}
use aether_protocol.Stream.Buffer.{read, read_sorted, sort_fragments}

-- The lengths and windows are those of real memory: a Vec has fewer than 2 ^ 63 bytes.
pub data Step : Stream → Stream → Type 0 where
  closes_write : (s : Stream) → Step s (close_write s)
  closes_read : (s : Stream) → Step s (close_read s)
  writes : (s : Stream) (bytes : List ℕ) → length bytes < 2 ^ 63 → Step s (write s bytes).0
  receives : (s : Stream) (offset : ℕ) (bytes : List ℕ) → Step s (receive_data s offset bytes)
  reads : (s : Stream) (max_len : ℕ) → Step s (read s max_len).0
  widens :
      (s : Stream) (new_max : ℕ)
      → new_max < 2 ^ 63
      → Step s (record s { flow_control = update_window s.flow_control new_max })

pub data Reach (s : Stream) : Stream → Type 0 where
  here : Reach s s
  next : {t u : Stream} → Reach s t → Step t u → Reach s u

-- Never more was sent than the peer has allowed.
pub record InWindow (s : Stream) : Type 0 where
  pub sent_allowed : s.flow_control.sent_offset ≤ s.flow_control.max_offset
  pub max_small : s.flow_control.max_offset < 2 ^ 63

-- `read` changes the buffer alone.
pub read_sorted-keeps :
    (s : Stream) (max_len : ℕ) (fs : List Fragment)
    → ((read_sorted s max_len fs).0.state ≡ s.state)
      × ((read_sorted s max_len fs).0.flow_control ≡ s.flow_control)
unfolding read_sorted
read_sorted-keeps s max_len [] = (refl, refl)
read_sorted-keeps s max_len (f ∷ fs) = (ground arith, ground arith)

pub read-keeps :
    (s : Stream) (max_len : ℕ)
    → ((read s max_len).0.state ≡ s.state) × ((read s max_len).0.flow_control ≡ s.flow_control)
unfolding read
read-keeps s max_len =
    let k = read_sorted-keeps s max_len (sort_fragments s.receive_buffer) in
    (ground (arith, k.0), ground (arith, k.1))

write-InWindow :
    (s : Stream) (bytes : List ℕ) → length bytes < 2 ^ 63 → InWindow s → InWindow (write s bytes).0
unfolding write can_send reserve_send
write-InWindow s bytes h w = ground arith

receive-InWindow :
    (s : Stream) (offset : ℕ) (bytes : List ℕ) → InWindow s → InWindow (receive_data s offset bytes)
unfolding receive_data received
receive-InWindow s offset bytes w = ground arith

pub Step-InWindow : {s t : Stream} → Step s t → InWindow s → InWindow t
unfolding close_write close_read update_window
Step-InWindow (closes_write s) w = record { sent_allowed = w.sent_allowed; max_small = w.max_small }
Step-InWindow (closes_read s) w = record { sent_allowed = w.sent_allowed; max_small = w.max_small }
Step-InWindow (writes s bytes h) w = write-InWindow s bytes h w
Step-InWindow (receives s offset bytes) w = receive-InWindow s offset bytes w
Step-InWindow (reads s max_len) w =
    let same = (read-keeps s max_len).1 in
    record { sent_allowed = rw same w.sent_allowed; max_small = rw same w.max_small }
Step-InWindow (widens s new_max h) w = ground arith

-- If a stream has sent no more than the peer allows, with an allowance below 2^63, this stays so
-- along every sequence of its calls, as long as each write has fewer than 2^63 bytes and each new
-- allowance is below 2^63.
pub Reach-InWindow : {s t : Stream} → InWindow s → Reach s t → InWindow t
Reach-InWindow w here = w
Reach-InWindow w (next r st) = Step-InWindow st (Reach-InWindow w r)

pub new_stream-InWindow :
    (id window : ℕ) (is_client : Bool) → window < 2 ^ 63 → InWindow (new_stream id is_client window)
unfolding new_stream new_flow_control
new_stream-InWindow id window is_client h = omega arith

-- What may still be written: nothing, once the sending half is closed.
pub record IsFinished (sent : ℕ) (s : Stream) : Type 0 where
  pub not_writable : can_write s.state ≡ false
  pub nothing_sent : s.flow_control.sent_offset ≡ sent

not_writable-write : (t : StreamState) → can_write (closed_for_writing t) ≡ false
unfolding can_write
not_writable-write idle = refl
not_writable-write is_open = refl
not_writable-write half_closed_local = refl
not_writable-write half_closed_remote = refl
not_writable-write closed = refl

not_writable-read :
    (t : StreamState) → can_write t ≡ false → can_write (closed_for_reading t) ≡ false
unfolding can_write
not_writable-read idle h = refl
not_writable-read is_open h = refl
not_writable-read half_closed_local h = refl
not_writable-read half_closed_remote h = refl
not_writable-read closed h = refl

Step-IsFinished : {s t : Stream} (n : ℕ) → Step s t → IsFinished n s → IsFinished n t
unfolding close_write close_read write receive_data received update_window
Step-IsFinished n (closes_write s) w = record {
  not_writable = not_writable-write s.state;
  nothing_sent = w.nothing_sent;
}
Step-IsFinished n (closes_read s) w = record {
  not_writable = not_writable-read s.state w.not_writable;
  nothing_sent = w.nothing_sent;
}
Step-IsFinished n (writes s bytes h) w = ground arith
Step-IsFinished n (receives s offset bytes) w = ground arith
Step-IsFinished n (reads s max_len) w = record {
  not_writable = ap can_write (read-keeps s max_len).0 ∙ w.not_writable;
  nothing_sent =
      ap (λ (fc : FlowControl). fc.sent_offset) (read-keeps s max_len).1 ∙ w.nothing_sent;
}
Step-IsFinished n (widens s new_max h) w = ground arith

Reach-IsFinished : {s t : Stream} (n : ℕ) → Reach s t → IsFinished n s → IsFinished n t
Reach-IsFinished n here w = w
Reach-IsFinished n (next r st) w = Step-IsFinished n st (Reach-IsFinished n r w)

-- From a stream on which `close_write` was called, no sequence of calls makes it writable or moves
-- its sent offset.
pub close_write_final :
    (s : Stream) {t : Stream}
    → Reach (close_write s) t
    → (can_write t.state ≡ false) × (t.flow_control.sent_offset ≡ s.flow_control.sent_offset)
close_write_final s r =
    let w = Reach-IsFinished s.flow_control.sent_offset r start in (w.not_writable, w.nothing_sent)
  where
    start : IsFinished s.flow_control.sent_offset (close_write s)
    start =
        unfold close_write in
        record { not_writable = not_writable-write s.state; nothing_sent = refl }
