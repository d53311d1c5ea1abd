-- ===== src/Handshake/Capabilities.antt =====
-- aether-core/src/handshake.rs: `Capabilities`, its bytes in both hello messages, and negotiation.
use aether_protocol.Prelude.{
  ℕ, ◌+◌, Bool, true, false, not, List, ◌∷◌, ◌++◌, ◌==◌, leb, if◌then◌else◌,
}
use aether_protocol.Prelude.Bytes.{to_be}
use aether_protocol.Errors.{Result, ok, ◌>>=◌, index}
use aether_protocol.Framing.Header.{be_at}

pub record Capabilities : Type 0 where
  pub multipath : Bool
  pub max_streams : ℕ
  pub max_stream_data : ℕ
  pub ack_frequency : ℕ
  pub idle_timeout_ms : ℕ

unfoldable pub default_capabilities : Capabilities
default_capabilities = record {
  multipath = true;
  max_streams = 65536;
  max_stream_data = 1048576;
  ack_frequency = 2;
  idle_timeout_ms = 30000;
}

-- The last 22 bytes of both messages, written in the same way.
unfoldable pub encode_capabilities : Capabilities → List ℕ
encode_capabilities c =
    (if c.multipath then 1 else 0)
    ∷ (to_be 4 c.max_streams
        ++ (to_be 8 c.max_stream_data ++ (c.ack_frequency ∷ to_be 8 c.idle_timeout_ms)))

unfoldable pub decode_capabilities : List ℕ → ℕ → Result Capabilities
decode_capabilities bytes offset = do
  b ← index bytes offset
  let multipath = not (b == 0)
  max_streams ← be_at 4 bytes (offset + 1)
  max_stream_data ← be_at 8 bytes (offset + 5)
  ack_frequency ← index bytes (offset + 13)
  idle_timeout_ms ← be_at 8 bytes (offset + 14)
  ok (record {
    multipath = multipath;
    max_streams = max_streams;
    max_stream_data = max_stream_data;
    ack_frequency = ack_frequency;
    idle_timeout_ms = idle_timeout_ms;
  })

abbrev pub min_of : ℕ → ℕ → ℕ
min_of m n = if leb m n then m else n

-- The server's own capabilities first, then what the client announced.
unfoldable pub negotiate : Capabilities → Capabilities → Capabilities
negotiate own peer = record {
  multipath = if own.multipath then peer.multipath else false;
  max_streams = min_of own.max_streams peer.max_streams;
  max_stream_data = min_of own.max_stream_data peer.max_stream_data;
  ack_frequency = peer.ack_frequency;
  idle_timeout_ms = min_of own.idle_timeout_ms peer.idle_timeout_ms;
}
