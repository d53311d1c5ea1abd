-- ===== src/Stream/Manager.antt =====
-- aether-core/src/stream.rs: `StreamManager`. A call that fails leaves what it had changed so far.
use aether_protocol.Prelude.{
  ℕ, ◌+◌, ◌%◌, ◌^◌, Bool, not, ◌&&◌, Option, none, some, List, length, leb, ltb, ◌==◌,
  if◌then◌else◌,
}
use aether_protocol.Errors.{Error, Result, ok, err, or_error}
use aether_protocol.Table.{Table, lookup, contains, insert, remove, keys, filter_values}
use aether_protocol.Framing.Types.{max_stream_id}
use aether_protocol.Stream.State.{Stream, new_stream, can_read, is_closed, close_read, close_write}
use aether_protocol.Stream.Buffer.{is_empty}

pub record StreamManager : Type 0 where
  pub streams : Table Stream
  pub next_client_stream_id : ℕ
  pub next_server_stream_id : ℕ
  pub max_streams : ℕ
  pub initial_stream_window : ℕ
  pub connection_flow_window : ℕ
  pub connection_sent : ℕ
  pub is_client : Bool

unfoldable pub new_stream_manager : Bool → ℕ → ℕ → ℕ → StreamManager
new_stream_manager is_client max_streams initial_stream_window connection_flow_window = record {
  streams = List.[];
  next_client_stream_id = if is_client then 2 else 0;
  next_server_stream_id = if is_client then 0 else 1;
  max_streams = max_streams;
  initial_stream_window = initial_stream_window;
  connection_flow_window = connection_flow_window;
  connection_sent = 0;
  is_client = is_client;
}

-- The id that `open_stream` takes, and the manager with the counter moved on.
abbrev pub own_next : StreamManager → ℕ
own_next m = if m.is_client then m.next_client_stream_id else m.next_server_stream_id

abbrev pub advance : StreamManager → StreamManager
advance m =
    if m.is_client
    then record m { next_client_stream_id = (m.next_client_stream_id + 2) % 2 ^ 32 }
    else record m { next_server_stream_id = (m.next_server_stream_id + 2) % 2 ^ 32 }

unfoldable pub open_stream : StreamManager → StreamManager × Result ℕ
open_stream m =
    let id = own_next m in
    let m' = advance m in
    let stream = new_stream id m.is_client m.initial_stream_window in
    if leb m.max_streams (length m.streams)
    then (m, err Error.flow_control)
    else if ltb max_stream_id id
    then (m', err Error.flow_control)
    else (record m' { streams = insert id stream m.streams }, ok id)

unfoldable pub accept_stream : StreamManager → ℕ → StreamManager × Result (Unit {0})
accept_stream m id =
    let stream = new_stream id (id % 2 == 0) m.initial_stream_window in
    if contains id m.streams
    then (m, err Error.protocol_violation)
    else (record m { streams = insert id stream m.streams }, ok tt)

unfoldable pub get_stream : StreamManager → ℕ → Result Stream
get_stream m id = or_error (lookup id m.streams) (Error.stream_closed id)

-- The stream that was changed is written back, and removed if that closed it.
abbrev pub put_or_remove : StreamManager → ℕ → Stream → StreamManager
put_or_remove m id stream = record m {
  streams = if is_closed stream.state then remove id m.streams else insert id stream m.streams;
}

abbrev pub on_stream :
    StreamManager → ℕ → (Stream → Stream) → Option Stream → StreamManager × Result (Unit {0})
on_stream m id change none = (m, err (Error.stream_closed id))
on_stream m id change (some s) = (put_or_remove m id (change s), ok tt)

unfoldable pub close_stream : StreamManager → ℕ → StreamManager × Result (Unit {0})
close_stream m id = on_stream m id close_read (lookup id m.streams)

unfoldable pub shutdown_stream : StreamManager → ℕ → StreamManager × Result (Unit {0})
shutdown_stream m id = on_stream m id (λ s. close_read (close_write s)) (lookup id m.streams)

unfoldable pub can_send_connection : StreamManager → ℕ → Bool
can_send_connection m data_len =
    leb ((m.connection_sent + data_len) % 2 ^ 64) m.connection_flow_window

unfoldable pub reserve_connection_send : StreamManager → ℕ → StreamManager
reserve_connection_send m data_len = record m {
  connection_sent = (m.connection_sent + data_len) % 2 ^ 64;
}

unfoldable pub update_connection_window : StreamManager → ℕ → StreamManager
update_connection_window m new_window =
    if ltb m.connection_flow_window new_window
    then record m { connection_flow_window = new_window }
    else m

unfoldable pub active_streams : StreamManager → List ℕ
active_streams m = keys m.streams

unfoldable pub stream_count : StreamManager → ℕ
stream_count m = length m.streams

unfoldable pub has_stream : StreamManager → ℕ → Bool
has_stream m id = contains id m.streams

unfoldable pub readable_streams : StreamManager → List ℕ
readable_streams m =
    keys (filter_values (λ s. not (is_empty s.receive_buffer) && can_read s.state) m.streams)
