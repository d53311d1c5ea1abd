-- ===== src/Handshake/Setting.antt =====
-- What the two sides of a handshake start from, and what they are to end with.
use aether_protocol.Prelude.{
  ℕ, ◌^◌, ◌<◌, ◌≡◌, sym, ap, ◌∙◌, append-nil, arith, true, some, List, [], length,
}
use aether_protocol.Errors.{ok}
use aether_protocol.Framing.Types.{FrameType, control_stream_id, requires_long_header}
use aether_protocol.Framing.Frame.{new_long, encode_frame, decode_frame}
use aether_protocol.Framing.Builders.{decode-new_long}
use aether_protocol.Crypto.{Primitives}
use aether_protocol.Crypto.Identity.{from_seed}
use aether_protocol.Handshake.Capabilities.{Capabilities, negotiate}
use aether_protocol.Handshake.CapabilitiesRoundTrip.{FitsCapabilities}
use aether_protocol.Handshake.Context.{HandshakeContext, complete, truncated}
use aether_protocol.Handshake.Steps.{over_wire}

-- A handshake frame is not changed by the wire.
pub over_wire-new_long :
    (t : FrameType) (dest source : ℕ) (payload : List ℕ)
    → requires_long_header t ≡ true
    → source < 2 ^ 64
    → length payload < 2 ^ 32
    → over_wire (new_long t control_stream_id (truncated dest) source payload)
      ≡ ok (new_long t control_stream_id (truncated dest) source payload)
over_wire-new_long t dest source payload long s p =
    let frame = new_long t control_stream_id (truncated dest) source payload in
    ap decode_frame (sym (append-nil (encode_frame frame)))
    ∙ decode-new_long t control_stream_id (truncated dest) source payload []
        (record {
          stream_fits = omega arith;
          connection_fits = omega arith;
          offset_fits = omega arith;
          payload_fits = p;
        })
        s long

-- The two sides and what they draw at random.
pub record Setting : Type 0 where
  pub client_id : ℕ
  pub server_id : ℕ
  pub client_secret : List ℕ
  pub server_secret : List ℕ
  pub client_seed : List ℕ
  pub server_seed : List ℕ
  pub client_caps : Capabilities
  pub server_caps : Capabilities

pub record FitsSetting (s : Setting) : Type 0 where
  pub client_id_fits : s.client_id < 2 ^ 64
  pub server_id_fits : s.server_id < 2 ^ 64
  pub client_caps_fit : FitsCapabilities s.client_caps
  pub server_caps_fit : FitsCapabilities s.server_caps

-- Both sides are done, hold one key, one transcript and the negotiated capabilities, and know each
-- other's connection id and identity.
pub record Agreed (prims : Primitives) (s : Setting) (client server : HandshakeContext)
    : Type 0 where
  pub key : List ℕ
  pub client_key : client.session_key ≡ some key
  pub server_key : server.session_key ≡ some key
  pub one_transcript : client.transcript ≡ server.transcript
  pub client_done : client.state ≡ complete
  pub server_done : server.state ≡ complete
  pub client_capabilities : client.capabilities ≡ some (negotiate s.server_caps s.client_caps)
  pub server_capabilities : server.capabilities ≡ some (negotiate s.server_caps s.client_caps)
  pub client_peer : client.peer_connection_id ≡ some s.server_id
  pub server_peer : server.peer_connection_id ≡ some s.client_id
  pub server_own : server.our_connection_id ≡ s.server_id
  pub client_knows : client.peer_identity ≡ some (from_seed prims s.server_seed).identity_hash
  pub server_knows : server.peer_identity ≡ some (from_seed prims s.client_seed).identity_hash
