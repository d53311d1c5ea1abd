-- ===== src/Stream/State.antt =====
-- aether-core/src/stream.rs: `StreamState` and the parts of `Stream` that drive it.
use aether_protocol.Prelude.{
  ℕ, ◌%◌, ◌^◌, Bool, true, false, not, List, [], ◌∷◌, ◌++◌, length, if◌then◌else◌,
}
use aether_protocol.Errors.{Error, Result, ok, err}
use aether_protocol.Stream.FlowControl.{
  FlowControl, new_flow_control, can_send, reserve_send, received,
}

-- `is_open` is the source's `Open`, a reserved word here.
pub data StreamState : Type 0 where
  idle is_open half_closed_local half_closed_remote closed : StreamState

unfoldable pub can_write : StreamState → Bool
can_write is_open = true
can_write _ = false

unfoldable pub can_read : StreamState → Bool
can_read is_open = true
can_read half_closed_local = true
can_read _ = false

unfoldable pub is_closed : StreamState → Bool
is_closed closed = true
is_closed _ = false

-- A fragment that was received: its offset and its bytes.
abbrev pub Fragment : Type 0
Fragment = ℕ × List ℕ

pub record Stream : Type 0 where
  pub id : ℕ
  pub state : StreamState
  pub flow_control : FlowControl
  pub receive_buffer : List Fragment
  pub is_client : Bool

unfoldable pub new_stream : ℕ → Bool → ℕ → Stream
new_stream id is_client max_stream_window = record {
  id = id;
  state = is_open;
  flow_control = new_flow_control max_stream_window;
  receive_buffer = [];
  is_client = is_client;
}

abbrev pub closed_for_writing : StreamState → StreamState
closed_for_writing is_open = half_closed_local
closed_for_writing half_closed_remote = closed
closed_for_writing state = state

abbrev pub closed_for_reading : StreamState → StreamState
closed_for_reading is_open = half_closed_remote
closed_for_reading half_closed_local = closed
closed_for_reading state = state

unfoldable pub close_write : Stream → Stream
close_write s = record s { state = closed_for_writing s.state }

unfoldable pub close_read : Stream → Stream
close_read s = record s { state = closed_for_reading s.state }

-- The stream after the call, and what the call returned.
unfoldable pub write : Stream → List ℕ → Stream × Result ℕ
write s bytes =
    if not (can_write s.state)
    then (s, err Error.invalid_state)
    else if not (can_send s.flow_control (length bytes))
    then (s, err Error.flow_control)
    else let (fc, offset) = reserve_send s.flow_control (length bytes) in
      (record s { flow_control = fc }, ok offset)

unfoldable pub receive_data : Stream → ℕ → List ℕ → Stream
receive_data s offset bytes = record s {
  receive_buffer = s.receive_buffer ++ ((offset, bytes) ∷ []);
  flow_control = received s.flow_control offset (length bytes % 2 ^ 32);
}
