-- ===== src/Connection/Dial.antt =====
-- Two nodes from their first packet on: the handshake and the connections that it makes.
use aether_protocol.Prelude.{
  ℕ, ◌≡◌, refl, sym, ap, ◌∙◌, arith, Bool, true, false, not, none, some, List, [],
}
use aether_protocol.Errors.{Result, ok, ◌>>=◌}
use aether_protocol.Crypto.{Primitives, Lawful, AeadAlgorithm, aes256_gcm}
use aether_protocol.Crypto.Identity.{Identity, from_seed}
use aether_protocol.Crypto.Keys.{
  AeadSession, DirectionalKeys, client_label, server_label, derive, new_aead_session,
}
use aether_protocol.Handshake.Context.{HandshakeContext, new_client, new_server, truncated}
use aether_protocol.Handshake.Steps.{run_handshake}
use aether_protocol.Handshake.Setting.{Setting, FitsSetting}
use aether_protocol.Handshake.Agreement.{run_handshake-Agreed}
use aether_protocol.Multipath.Path.{SocketAddr}
use aether_protocol.Connection.State.{Config, Connection, active, established, connected, accepted}
use aether_protocol.Connection.Delivery.{Paired}

-- `connect` on one side and `accept` on the other: what both draw at random, their addresses and their
-- configurations.
unfoldable pub dial :
    Primitives
    → Setting
    → SocketAddr
    → SocketAddr
    → Config
    → Config
    → Result (Connection × Connection)
dial prims s client_addr server_addr client_config server_config = do
  (client, server) ←
      run_handshake prims s.server_id s.client_secret s.server_secret (new_client s.client_id)
        new_server (from_seed prims s.client_seed) (from_seed prims s.server_seed) s.client_caps
        s.server_caps
  dialled ←
      connected prims s.client_id server_addr client (from_seed prims s.client_seed)
        (record client_config { capabilities = s.client_caps })
  answered ←
      accepted prims client_addr server (from_seed prims s.server_seed)
        (record server_config { capabilities = s.server_caps })
  ok (dialled, answered)

-- With lawful algorithms the keys of a session can be derived from every secret.
derive_total :
    (prims : Primitives)
    → Lawful prims
    → (secret label : List ℕ) → (keys : DirectionalKeys) × (derive prims secret label ≡ ok keys)
unfolding derive
derive_total prims laws secret label =
    let (okm, e, l) = laws.hkdf_total none secret label 44 (omega arith) in rw e (_, refl)

session_total :
    (prims : Primitives)
    → Lawful prims
    → (key : List ℕ) (algorithm : AeadAlgorithm)
    → (session : AeadSession) × (new_aead_session prims key algorithm ≡ ok session)
unfolding new_aead_session
session_total prims laws key algorithm =
    let (client, e) = derive_total prims laws key client_label in
    let (server, f) = derive_total prims laws key server_label in rw (e, f) (_, refl)

-- What a maker of connections yields, as far as packets depend on it.
record Made (session : AeadSession) (is_client : Bool) (our_cid : ℕ) (config : Config)
    (r : Result Connection) : Type 0 where
  made : Connection
  is_made : r ≡ ok made
  made_session : made.aead ≡ some session
  made_side : made.is_client ≡ is_client
  made_id : made.our_connection_id ≡ our_cid
  made_active : made.state ≡ active
  made_empty : made.incoming_frames ≡ []
  made_config : made.config ≡ config
  made_number : made.tx_packet_number ≡ 0

established-Made :
    (prims : Primitives) (is_client : Bool) (our_cid idle peer_cid : ℕ) (addr : SocketAddr)
    (hs : HandshakeContext) (identity : Identity) (config : Config) (key : List ℕ)
    (session : AeadSession)
    → hs.session_key ≡ some key
    → hs.peer_connection_id ≡ some peer_cid
    → new_aead_session prims key aes256_gcm ≡ ok session
    → Made session is_client our_cid config
        (established prims is_client our_cid idle addr hs identity config)
established-Made prims is_client our_cid idle peer_cid addr hs identity config key session k p e =
    rw (k, e, p)
      (record {
        made = _;
        is_made = refl;
        made_session = refl;
        made_side = refl;
        made_id = refl;
        made_active = refl;
        made_empty = refl;
        made_config = refl;
        made_number = refl;
      })

-- Two connections that were made of one handshake.
pub record Dialled (s : Setting) (server_config : Config) (r : Result (Connection × Connection))
    : Type 0 where
  pub client : Connection
  pub server : Connection
  pub is_dialled : r ≡ ok (client, server)
  pub pair : Paired client server
  pub client_number : client.our_connection_id ≡ truncated s.client_id
  pub server_number : server.our_connection_id ≡ truncated s.server_id
  pub client_packet : client.tx_packet_number ≡ 0
  pub server_packet : server.tx_packet_number ≡ 0
  pub server_buffer : server.config.recv_buffer_size ≡ server_config.recv_buffer_size

module _ (prims : Primitives) (laws : Lawful prims) (s : Setting) (fits : FitsSetting s)
    (client_addr server_addr : SocketAddr) (client_config server_config : Config) where
  pub dial-Dialled :
      Dialled s server_config (dial prims s client_addr server_addr client_config server_config)
  unfolding dial connected accepted
  dial-Dialled =
      let (client, server, ran, agreed) = run_handshake-Agreed prims laws s fits in
      let (session, keyed) = session_total prims laws agreed.key aes256_gcm in
      let c =
        established-Made prims true (truncated s.client_id) 30000 s.server_id server_addr client
          (from_seed prims s.client_seed) (record client_config { capabilities = s.client_caps })
          agreed.key session agreed.client_key agreed.client_peer keyed in
      let d =
        established-Made prims false (truncated server.our_connection_id)
          s.server_caps.idle_timeout_ms s.client_id client_addr server
          (from_seed prims s.server_seed) (record server_config { capabilities = s.server_caps })
          agreed.key session agreed.server_key agreed.server_peer keyed in
      record {
        client = c.made;
        server = d.made;
        is_dialled = rw (ran, c.is_made, d.is_made) refl;
        pair = record {
          session = session;
          sender_session = c.made_session;
          receiver_session = d.made_session;
          opposite = d.made_side ∙ ap not (sym c.made_side);
          sender_active = c.made_active;
          nothing_waits = d.made_empty;
        };
        client_number = c.made_id;
        server_number = d.made_id ∙ ap truncated agreed.server_own;
        client_packet = c.made_number;
        server_packet = d.made_number;
        server_buffer = ap (λ f. f.recv_buffer_size) d.made_config;
      }
