-- ===== src/Connection/Tests.antt =====
-- Concrete runs of a connection.
use aether_protocol.Prelude.{
  ℕ, ◌+◌, ◌≤◌, ◌≡◌, refl, arith, Bool, true, false, none, some, List, [], ◌∷◌, ◌++◌, map, length,
}
use aether_protocol.Errors.{Error, Result, ok, err, CloseCode, no_error}
use aether_protocol.Framing.Types.{data_frame, path_id}
use aether_protocol.Framing.Extension.{Extension}
use aether_protocol.Framing.Header.{encode_short_header}
use aether_protocol.Framing.Frame.{Frame, new_short, encode_frame, decode_frame}
use aether_protocol.Framing.Builders.{decode-new_short}
use aether_protocol.Stream.Manager.{new_stream_manager}
use aether_protocol.Crypto.{aes256_gcm}
use aether_protocol.Crypto.Keys.{AeadSession, DirectionalKeys, encrypt}
use aether_protocol.Crypto.Sample.{toy, toy-Lawful, repeat, tag}
use aether_protocol.Connection.State.{
  Connection, active, closing, default_config, is_active, make_aad,
}
use aether_protocol.Connection.Transfer.{
  send_frame, recv_frame, send_stream_data, close_connection, seal,
}
use aether_protocol.Connection.Delivery.{Paired, recv-send_frame}
use aether_protocol.Connection.Replay.{sealing, send_frames, packet_number-unused}
use aether_protocol.Multipath.Path.{SocketAddr}
use aether_protocol.Connection.Close.{close_connection-fails}
use aether_protocol.Connection.Chunks.{Carries, send_stream_data-Carries}

abbrev here : SocketAddr
here = record { ip = 10 ∷ 0 ∷ 0 ∷ 1 ∷ []; port = 9000 }

abbrev there : SocketAddr
there = record { ip = 10 ∷ 0 ∷ 0 ∷ 2 ∷ []; port = 9000 }

abbrev some_keys : DirectionalKeys
some_keys = record { tx_key = 1 ∷ []; tx_iv = repeat 12 0; packet_number = 0 }

abbrev shared_session : AeadSession
shared_session = record { client_tx = some_keys; server_tx = some_keys; algorithm = aes256_gcm }

abbrev side : Bool → ℕ → Connection
side is_client id = record {
  peer_addr = none;
  our_connection_id = id;
  peer_connection_id = some 6;
  state = active;
  handshake = none;
  aead = some shared_session;
  streams = new_stream_manager is_client 100 1024 4096;
  identity = none;
  config = default_config;
  stats = record {
    packets_sent = 0;
    packets_received = 0;
    bytes_sent = 0;
    bytes_received = 0;
    packets_lost = 0;
    rtt_us = 0;
  };
  is_client = is_client;
  tx_packet_number = 0;
  rx_packet_number = 0;
  incoming_frames = [];
  pending_acks = [];
  idle_timeout_ms = 30000;
}

sides-Paired : (a b : ℕ) → Paired (side true a) (side false b)
sides-Paired a b = record {
  session = shared_session;
  sender_session = refl;
  receiver_session = refl;
  opposite = refl;
  sender_active = refl;
  nothing_waits = refl;
}

abbrev greeting : Frame
greeting = new_short data_frame 2 6 0 (104 ∷ 105 ∷ [])

greeting_kept : decode_frame (encode_frame greeting) ≡ ok greeting
greeting_kept =
    let ext : Extension = record { ext_type = path_id; value = [] } in
    (decode-new_short data_frame 2 6 0 (104 ∷ 105 ∷ []) ext
      (record {
        stream_fits = omega arith;
        connection_fits = omega arith;
        offset_fits = omega arith;
        payload_fits = omega arith;
      })
      (omega arith) refl).0

greeting_size : length (encode_frame greeting) ≡ 18
unfolding encode_frame new_short encode_short_header
greeting_size = refl

greeting_room : length (encode_frame greeting) + 16 ≤ default_config.recv_buffer_size
unfolding default_config encode_frame new_short encode_short_header
greeting_room = omega (arith, greeting_size)

recv-send_frame_example :
    (packet : List ℕ) × ((send_frame toy (ok tt) (side true 5) greeting).1 ≡ ok packet)
    × ((recv_frame toy (ok packet) (side false 5)).1 ≡ ok greeting)
unfolding make_aad
recv-send_frame_example =
    recv-send_frame toy toy-Lawful (side true 5) (side false 5) greeting (sides-Paired 5 5) refl
      greeting_kept greeting_room

-- The packet of a client whose connection id is 5.
abbrev sealed_greeting : List ℕ
sealed_greeting = tag (make_aad (side true 5)) ++ encode_frame greeting

greeting_sent : (send_frame toy (ok tt) (side true 5) greeting).1 ≡ ok sealed_greeting
unfolding send_frame is_active encrypt
greeting_sent = refl

sealed_room : length sealed_greeting ≤ default_config.recv_buffer_size
unfolding default_config make_aad
sealed_room = omega (arith, greeting_size)

close_connection-fails_example :
    let closed = (close_connection toy (ok tt) (side true 5) no_error).0 in
    (close_connection toy (ok tt) (side true 5) no_error
      ≡ (record (side true 5) { state = closing }, err Error.invalid_state))
    × ((io' : Result (Unit {0})) (frame : Frame)
        → send_frame toy io' closed frame ≡ (closed, err Error.invalid_state))
    × ((io' : Result (Unit {0})) (code' : CloseCode)
        → close_connection toy io' closed code' ≡ (closed, err Error.invalid_state))
close_connection-fails_example = close_connection-fails toy (ok tt) (side true 5) no_error

send_stream_data-Carries_example :
    (packets : List (List ℕ)) × ((send_stream_data toy (ok tt) (side true 5) 2 (repeat 1400 7)).1
      ≡ ok packets)
    × Carries (seal toy (side true 5) (some shared_session)) 2 6 0 packets (repeat 1400 7)
unfolding is_active
send_stream_data-Carries_example =
    send_stream_data-Carries toy toy-Lawful 2 (side true 5) (repeat 1400 7) refl (omega arith)

packet_number-unused_example :
    let first = recv_frame toy (ok (1 ∷ 2 ∷ [])) (side true 5) in
    (send_frames toy (side true 5) (greeting ∷ greeting ∷ [])
      ≡ map (sealing toy shared_session (side true 5)) (greeting ∷ greeting ∷ []))
    × ((recv_frame toy (ok (1 ∷ 2 ∷ [])) first.0).1 ≡ first.1)
packet_number-unused_example =
    packet_number-unused toy shared_session (side true 5) (greeting ∷ greeting ∷ []) (1 ∷ 2 ∷ [])
      refl refl refl
