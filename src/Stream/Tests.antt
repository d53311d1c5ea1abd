-- ===== src/Stream/Tests.antt =====
-- Runs of the stream operations, and the theorems of streams at concrete inputs.
use mathlib.Core.List.Perm
use aether_protocol.Prelude.{
  ℕ, ◌%◌, ◌+◌, ◌≤◌, ◌≡◌, refl, arith, Bool, true, false, some, List, [], ◌∷◌, ◌==◌, if◌then◌else◌,
}
use aether_protocol.Errors.{Error, ok, err}
use aether_protocol.Table.{lookup, contains, insert}
use aether_protocol.Table.Laws.{is_some}
use aether_protocol.Stream.FlowControl.{new_flow_control, can_send, reserve_send}
use aether_protocol.Stream.State.{
  Stream, StreamState, new_stream, close_write, close_read, write, can_write, can_read,
}
use aether_protocol.Stream.Buffer.{read, read_sorted, sort_fragments, collect}
use aether_protocol.Stream.Stalls.{read_stalls}
use aether_protocol.Stream.Unguarded.{open_stream_replaces}
use aether_protocol.Stream.EndToEnd.{write_all, write-read}
use aether_protocol.Stream.Lifecycle.{Step, here, next, InWindow, Reach-InWindow, close_write_final}
use aether_protocol.Stream.Manager.{
  StreamManager, new_stream_manager, open_stream, accept_stream, get_stream, has_stream,
  stream_count, close_stream,
}
use aether_protocol.Stream.Ids.{
  IsValid, new_stream_manager-IsValid, open_stream_lem, accept_stream-IsValid,
}
use aether_protocol.Stream.Closing.{after_change, close_stream_lem}

abbrev stream_six : List (ℕ × List ℕ) → Stream
stream_six buffer = record {
  id = 6;
  state = StreamState.is_open;
  flow_control = record {
    max_offset = 1024;
    received_offset = 0;
    sent_offset = 0;
    max_window = 1024;
  };
  receive_buffer = buffer;
  is_client = true;
}

-- The source's own test: the gap is waited for, and then everything is read.
read_with_gap : (read (stream_six ((5, 7 ∷ []) ∷ [])) 1024).1 ≡ ok []
unfolding read can_read read_sorted sort_fragments collect
read_with_gap = refl

read_stalls_example : (read (stream_six ((5, 7 ∷ []) ∷ [])) 1024).1 ≡ ok []
read_stalls_example = read_stalls (stream_six ((5, 7 ∷ []) ∷ [])) 1024 refl (omega arith)

write-read_example :
    (read (stream_six ((0, 1 ∷ 2 ∷ []) ∷ (2, 3 ∷ []) ∷ [])) 64).1 ≡ ok (1 ∷ 2 ∷ 3 ∷ [])
unfolding write_all write can_write can_send reserve_send new_stream new_flow_control
write-read_example =
    write-read 2 1024 64 true (1 ∷ 2 ∷ []) ((3 ∷ []) ∷ [])
      (stream_six ((0, 1 ∷ 2 ∷ []) ∷ (2, 3 ∷ []) ∷ [])) (omega arith) (omega arith) (omega arith)
      (omega arith) (Perm.refl _)

Reach-InWindow_example : InWindow (write (stream_six []) (1 ∷ [])).0
Reach-InWindow_example =
    Reach-InWindow {s = stream_six []} (omega arith)
      (next here (Step.writes (stream_six []) (1 ∷ []) (omega arith)))

close_write_final_example :
    (can_write (close_read (close_write (stream_six []))).state ≡ false)
    × ((close_read (close_write (stream_six []))).flow_control.sent_offset ≡ 0)
close_write_final_example =
    close_write_final (stream_six []) (next here (Step.closes_read (close_write (stream_six []))))

-- A server that has accepted the client's stream 2, and a client whose peer took its id 2.
abbrev fresh_manager : Bool → StreamManager
fresh_manager is_client = new_stream_manager is_client 100 1024 4096

abbrev serving : StreamManager
serving = (accept_stream (fresh_manager false) 2).0

abbrev squatted : StreamManager
squatted = (accept_stream (fresh_manager true) 2).0

serving-IsValid : IsValid serving
unfolding new_stream_manager
serving-IsValid =
    accept_stream-IsValid (fresh_manager false) 2 (new_stream_manager-IsValid false 100 1024 4096)
      (omega arith)

open_stream_lem_example :
    ((open_stream serving).1 ≡ ok 1)
    × (has_stream serving 1 ≡ false)
    × (1 % 2 ≡ 1)
    × (stream_count (open_stream serving).0 ≡ stream_count serving + 1)
    × (stream_count (open_stream serving).0 ≤ 100)
    × IsValid (open_stream serving).0
    × ((j : ℕ)
        → lookup j (open_stream serving).0.streams
          ≡ (if 1 == j then some (new_stream 1 false 1024) else lookup j serving.streams))
unfolding new_stream_manager accept_stream contains insert
open_stream_lem_example = open_stream_lem serving serving-IsValid (omega arith) (omega arith)

open_stream_replaces_example :
    ((open_stream squatted).1 ≡ ok 2)
    × (get_stream (open_stream squatted).0 2 ≡ ok (new_stream 2 true 1024))
    × (stream_count (open_stream squatted).0 ≡ stream_count squatted)
unfolding new_stream_manager accept_stream contains insert get_stream lookup
open_stream_replaces_example =
    open_stream_replaces squatted (new_stream 2 true 1024) (omega arith) (omega arith) refl

close_stream_lem_example :
    ((j : ℕ)
      → lookup j (close_stream serving 2).0.streams ≡ (
          if 2 == j
          then after_change close_read (lookup 2 serving.streams)
          else lookup j serving.streams))
    × ((close_stream serving 2).1
        ≡ (if is_some (lookup 2 serving.streams) then ok tt else err (Error.stream_closed 2)))
close_stream_lem_example = close_stream_lem serving 2
