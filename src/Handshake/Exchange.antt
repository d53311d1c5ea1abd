-- ===== src/Handshake/Exchange.antt =====
-- What is sent in a handshake, and the states of both sides between its steps.
use aether_protocol.Prelude.{ℕ, some, List, ◌++◌}
use aether_protocol.Framing.Types.{FrameType, control_stream_id}
use aether_protocol.Framing.Frame.{Frame, new_long}
use aether_protocol.Crypto.{Primitives, compute_finished, x25519_dh}
use aether_protocol.Crypto.Identity.{Identity, from_seed}
use aether_protocol.Handshake.Capabilities.{Capabilities, negotiate}
use aether_protocol.Handshake.Hello.{
  ClientHello, ServerHello, new_client_hello, encode_client_hello, new_server_hello,
  encode_server_hello,
}
use aether_protocol.Handshake.Setting.{Setting}
use aether_protocol.Handshake.Context.{
  HandshakeContext, hello_sent, keys_derived, new_client, new_server, client_hello_label,
  server_hello_label, truncated,
}

module _ (prims : Primitives) (s : Setting) where
  unfoldable pub client_identity : Identity
  client_identity = from_seed prims s.client_seed

  unfoldable pub server_identity : Identity
  server_identity = from_seed prims s.server_seed

  unfoldable pub hello : ClientHello
  hello =
      new_client_hello s.client_id (prims.x25519_public s.client_secret) client_identity
        s.client_caps

  unfoldable pub hello_data : List ℕ
  hello_data = encode_client_hello hello

  unfoldable pub hello_frame : Frame
  hello_frame =
      new_long FrameType.initial control_stream_id (truncated s.client_id) s.client_id hello_data

  unfoldable pub transcript1 : List ℕ
  transcript1 = client_hello_label ++ hello_data

  unfoldable pub agreed_caps : Capabilities
  agreed_caps = negotiate s.server_caps s.client_caps

  unfoldable pub answer : ServerHello
  answer =
      new_server_hello prims s.server_id s.client_id (prims.x25519_public s.server_secret)
        server_identity transcript1 agreed_caps

  unfoldable pub answer_data : List ℕ
  answer_data = encode_server_hello answer

  unfoldable pub answer_frame : Frame
  answer_frame =
      new_long FrameType.initial control_stream_id (truncated s.client_id) s.server_id answer_data

  unfoldable pub transcript2 : List ℕ
  transcript2 = (transcript1 ++ server_hello_label) ++ answer_data

  unfoldable pub shared : List ℕ
  shared = x25519_dh prims s.server_secret (prims.x25519_public s.client_secret)

  unfoldable pub finished : List ℕ → List ℕ
  finished key = compute_finished prims key transcript2

  -- The states between the steps.
  unfoldable pub client1 : HandshakeContext
  client1 = record (new_client s.client_id) {
    x25519_secret = some s.client_secret;
    transcript = transcript1;
    state = hello_sent;
  }

  unfoldable pub client2 : List ℕ → HandshakeContext
  client2 key = record (new_client s.client_id) {
    peer_connection_id = some s.server_id;
    peer_x25519_public = some (prims.x25519_public s.server_secret);
    peer_identity = some server_identity.identity_hash;
    transcript = transcript2;
    session_key = some key;
    capabilities = some agreed_caps;
    state = keys_derived;
  }

  unfoldable pub server1 : List ℕ → HandshakeContext
  server1 key = record new_server {
    our_connection_id = s.server_id;
    peer_connection_id = some s.client_id;
    peer_x25519_public = some (prims.x25519_public s.client_secret);
    peer_identity = some client_identity.identity_hash;
    transcript = transcript2;
    session_key = some key;
    capabilities = some agreed_caps;
    state = keys_derived;
  }
