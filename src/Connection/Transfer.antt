-- ===== src/Connection/Transfer.antt =====
-- aether-core/src/connection.rs: sending, receiving and closing. A method returns the connection
-- beside its result; where it sends, the result is the packets that went to the socket.
use aether_protocol.Prelude.{
  ℕ, zero, suc, ◌+◌, ◌*◌, ◌%◌, ◌^◌, Option, none, some, List, [], ◌∷◌, length, take, drop,
  if◌then◌else◌,
}
use aether_protocol.Errors.{Error, Result, ok, err, panic, diverged, ◌>>=◌, CloseCode}
use aether_protocol.Framing.Frame.{Frame, encode_frame, decode_frame, new_data, new_close, new_ping}
use aether_protocol.Stream.Manager.{open_stream, active_streams}
use aether_protocol.Crypto.{Primitives}
use aether_protocol.Crypto.Keys.{AeadSession, encrypt, decrypt, tx_keys, rx_keys}
use aether_protocol.Connection.State.{Connection, closing, closed, make_aad, is_active}

-- `peer_connection_id.unwrap_or(our_connection_id)`.
abbrev pub target : Connection → ℕ
target conn = elim conn.peer_connection_id [ some cid ↦ cid | none ↦ conn.our_connection_id ]

-- The frame's bytes, sealed if there is a session.
abbrev pub seal : Primitives → Connection → Option AeadSession → List ℕ → Result (List ℕ)
seal prims conn none wire = ok wire
seal prims conn (some aead) wire = encrypt prims (tx_keys aead conn.is_client) wire (make_aad conn)

abbrev pub unseal : Primitives → Connection → Option AeadSession → List ℕ → Result (List ℕ)
unseal prims conn none bytes = ok bytes
unseal prims conn (some aead) bytes =
    decrypt prims (rx_keys aead conn.is_client) bytes (make_aad conn)

abbrev pub count_sent : Connection → List ℕ → Connection
count_sent conn packet =
    let stats = conn.stats in
    record conn {
      stats = record stats {
        packets_sent = (stats.packets_sent + 1) % 2 ^ 64;
        bytes_sent = (stats.bytes_sent + length packet) % 2 ^ 64;
      };
    }

-- The sealed packet goes to the socket, whose answer is `io`.
abbrev pub transmit :
    Connection → Result (List ℕ) → Result (Unit {0}) → Connection × Result (List ℕ)
transmit conn (ok packet) (ok done) = (count_sent conn packet, ok packet)
transmit conn (ok packet) (err e) = (conn, err e)
transmit conn (ok packet) panic = (conn, panic)
transmit conn (ok packet) diverged = (conn, diverged)
transmit conn (err e) io = (conn, err e)
transmit conn panic io = (conn, panic)
transmit conn diverged io = (conn, diverged)

unfoldable pub send_frame :
    Primitives → Result (Unit {0}) → Connection → Frame → Connection × Result (List ℕ)
send_frame prims io conn frame =
    if is_active conn
    then transmit conn (seal prims conn conn.aead (encode_frame frame)) io
    else (conn, err Error.invalid_state)

abbrev pub count_received : Connection → ℕ → Connection
count_received conn n =
    let stats = conn.stats in
    record conn {
      stats = record stats {
        packets_received = (stats.packets_received + 1) % 2 ^ 64;
        bytes_received = (stats.bytes_received + n) % 2 ^ 64;
      };
    }

-- A packet is cut to the size of the buffer; the counters move only if a frame comes out of it.
abbrev pub read_packet : Primitives → Connection → Result (List ℕ) → Result (ℕ × Frame)
read_packet prims conn io = do
  packet ← io
  let bytes = take conn.config.recv_buffer_size packet
  decrypted ← unseal prims conn conn.aead bytes
  frame ← decode_frame decrypted
  ok (length bytes, frame)

abbrev pub deliver : Connection → Result (ℕ × Frame) → Connection × Result Frame
deliver conn (ok (n, frame)) = (count_received conn n, ok frame)
deliver conn (err e) = (conn, err e)
deliver conn panic = (conn, panic)
deliver conn diverged = (conn, diverged)

-- A frame that waits is returned first.
abbrev pub next_frame :
    Primitives → Result (List ℕ) → Connection → List Frame → Connection × Result Frame
next_frame prims io conn [] = deliver conn (read_packet prims conn io)
next_frame prims io conn (frame ∷ frames) = (record conn { incoming_frames = frames }, ok frame)

unfoldable pub recv_frame : Primitives → Result (List ℕ) → Connection → Connection × Result Frame
recv_frame prims io conn = next_frame prims io conn conn.incoming_frames

-- `MAX_PAYLOAD_SIZE`.
abbrev pub max_payload_size : ℕ
max_payload_size = 1376

-- `chunks`: pieces of `size`, the last one shorter. A piece takes an element at least, so the length
-- is fuel enough.
unfoldable pub chunks : ℕ → ℕ → List ℕ → List (List ℕ)
chunks zero size bytes = []
chunks (suc fuel) size [] = []
chunks (suc fuel) size (b ∷ bytes) =
    take size (b ∷ bytes) ∷ chunks fuel size (drop size (b ∷ bytes))

-- The frame of chunk `i`; its offset is computed in u32.
abbrev pub chunk_frame : Connection → ℕ → ℕ → List ℕ → Frame
chunk_frame conn stream_id i chunk =
    new_data stream_id (target conn) (i % 2 ^ 32 * max_payload_size % 2 ^ 32) chunk

-- `?` in the loop: the rest of the chunks is sent only if this one was.
abbrev pub after_chunk :
    Connection × Result (List ℕ)
    → Connection × Result (List (List ℕ))
    → Connection × Result (List (List ℕ))
after_chunk (conn, ok packet) (conn', more) = (conn', more >>= λ packets. ok (packet ∷ packets))
after_chunk (conn, err e) more = (conn, err e)
after_chunk (conn, panic) more = (conn, panic)
after_chunk (conn, diverged) more = (conn, diverged)

unfoldable pub send_chunks :
    Primitives
    → Result (Unit {0})
    → Connection
    → ℕ
    → ℕ
    → List (List ℕ)
    → Connection × Result (List (List ℕ))
send_chunks prims io conn stream_id i [] = (conn, ok [])
send_chunks prims io conn stream_id i (chunk ∷ rest) =
    let sent = send_frame prims io conn (chunk_frame conn stream_id i chunk) in
    after_chunk sent (send_chunks prims io sent.0 stream_id (i + 1) rest)

unfoldable pub send_stream_data :
    Primitives → Result (Unit {0}) → Connection → ℕ → List ℕ → Connection × Result (List (List ℕ))
send_stream_data prims io conn stream_id bytes =
    send_chunks prims io conn stream_id 0 (chunks (length bytes) max_payload_size bytes)

-- The first stream that is there.
unfoldable pub accept_any_stream : Connection → Result ℕ
accept_any_stream conn = elim (active_streams conn.streams) [
  | [] ↦ err Error.invalid_state
  | id ∷ ids ↦ ok id
]

unfoldable pub open_connection_stream : Connection → Connection × Result ℕ
open_connection_stream conn =
    let (streams, result) = open_stream conn.streams in (record conn { streams = streams }, result)

-- b"Connection closed".
abbrev close_reason : List ℕ
close_reason =
    67 ∷ 111 ∷ 110 ∷ 110 ∷ 101 ∷ 99 ∷ 116 ∷ 105 ∷ 111 ∷ 110 ∷ 32 ∷ 99 ∷ 108 ∷ 111 ∷ 115 ∷ 101 ∷ 100
    ∷ []

abbrev pub finish_close : Connection × Result (List ℕ) → Connection × Result (List ℕ)
finish_close (conn, ok packet) = (record conn { state = closed }, ok packet)
finish_close (conn, r) = (conn, r)

unfoldable pub close_connection :
    Primitives → Result (Unit {0}) → Connection → CloseCode → Connection × Result (List ℕ)
close_connection prims io conn code =
    let conn' = record conn { state = closing } in
    finish_close (send_frame prims io conn' (new_close (target conn') code close_reason))

unfoldable pub ping_connection :
    Primitives → Result (Unit {0}) → ℕ → Connection → Connection × Result (List ℕ)
ping_connection prims io nonce conn = send_frame prims io conn (new_ping (target conn) nonce)
