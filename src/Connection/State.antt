-- ===== src/Connection/State.antt =====
-- aether-core/src/connection.rs: `Connection` and its making by `connect` and `accept`. The socket is
-- not part of the state: what it answers is an argument of the calls, and a packet that is handed to
-- it is a result.
use aether_protocol.Prelude.{ℕ, ◌*◌, Bool, true, false, Option, some, List, [], ◌++◌}
use aether_protocol.Prelude.Bytes.{to_be}
use aether_protocol.Errors.{Result, ok, ◌>>=◌, or_panic}
use aether_protocol.Framing.Frame.{Frame}
use aether_protocol.Stream.Manager.{StreamManager, new_stream_manager}
use aether_protocol.Crypto.{Primitives, aes256_gcm}
use aether_protocol.Crypto.Identity.{Identity}
use aether_protocol.Crypto.Keys.{AeadSession, new_aead_session}
use aether_protocol.Handshake.Capabilities.{Capabilities, default_capabilities}
use aether_protocol.Handshake.Context.{HandshakeContext, truncated}
use aether_protocol.Multipath.Path.{SocketAddr}

pub record Config : Type 0 where
  pub capabilities : Capabilities
  pub port : ℕ
  pub recv_buffer_size : ℕ

unfoldable pub default_config : Config
default_config = record {
  capabilities = default_capabilities;
  port = 9000;
  recv_buffer_size = 65536;
}

pub data ConnectionState : Type 0 where
  init handshaking active closing closed : ConnectionState

pub record ConnectionStats : Type 0 where
  pub packets_sent : ℕ
  pub packets_received : ℕ
  pub bytes_sent : ℕ
  pub bytes_received : ℕ
  pub packets_lost : ℕ
  pub rtt_us : ℕ

abbrev no_stats : ConnectionStats
no_stats = record {
  packets_sent = 0;
  packets_received = 0;
  bytes_sent = 0;
  bytes_received = 0;
  packets_lost = 0;
  rtt_us = 0;
}

-- `pending_acks` is keyed by a stream id and an offset.
pub record Connection : Type 0 where
  pub peer_addr : Option SocketAddr
  pub our_connection_id : ℕ
  pub peer_connection_id : Option ℕ
  pub state : ConnectionState
  pub handshake : Option HandshakeContext
  pub aead : Option AeadSession
  pub streams : StreamManager
  pub identity : Option Identity
  pub config : Config
  pub stats : ConnectionStats
  pub is_client : Bool
  pub tx_packet_number : ℕ
  pub rx_packet_number : ℕ
  pub incoming_frames : List Frame
  pub pending_acks : List ((ℕ × ℕ) × (Frame × ℕ))
  pub idle_timeout_ms : ℕ

-- What both makers build from a finished handshake, whose keys they unwrap.
abbrev pub established :
    Primitives
    → Bool
    → ℕ
    → ℕ
    → SocketAddr
    → HandshakeContext
    → Identity
    → Config
    → Result Connection
established prims is_client our_cid idle_timeout_ms peer_addr hs identity config = do
  session_key ← or_panic hs.session_key
  aead ← new_aead_session prims session_key aes256_gcm
  peer_cid ← or_panic hs.peer_connection_id
  ok (record {
    peer_addr = some peer_addr;
    our_connection_id = our_cid;
    peer_connection_id = some (truncated peer_cid);
    state = active;
    handshake = some hs;
    aead = some aead;
    streams =
        new_stream_manager is_client config.capabilities.max_streams
          config.capabilities.max_stream_data (16 * 1024 * 1024);
    identity = some identity;
    config = config;
    stats = no_stats;
    is_client = is_client;
    tx_packet_number = 0;
    rx_packet_number = 0;
    incoming_frames = [];
    pending_acks = [];
    idle_timeout_ms = idle_timeout_ms;
  })

-- The end of `connect`, once the handshake has run.
unfoldable pub connected :
    Primitives → ℕ → SocketAddr → HandshakeContext → Identity → Config → Result Connection
connected prims our_cid peer_addr hs identity config =
    established prims true (truncated our_cid) 30000 peer_addr hs identity config

-- The end of `accept`.
unfoldable pub accepted :
    Primitives → SocketAddr → HandshakeContext → Identity → Config → Result Connection
accepted prims peer_addr hs identity config =
    established prims false (truncated hs.our_connection_id) config.capabilities.idle_timeout_ms
      peer_addr hs identity config

-- The additional data that both sealing and opening take.
unfoldable pub make_aad : Connection → List ℕ
make_aad conn = to_be 4 conn.our_connection_id ++ to_be 8 conn.tx_packet_number

unfoldable pub is_active : Connection → Bool
is_active conn = elim conn.state [ active ↦ true | _ ↦ false ]
