-- ===== src/Handshake/Context.antt =====
-- aether-core/src/handshake.rs: `HandshakeContext`, one side's state, and its steps. A step that
-- fails leaves the state as far as it was written, so it returns the state beside the result. The
-- randomness, an ephemeral secret and a connection id, is an argument.
use aether_protocol.Prelude.{
  ℕ, ◌/◌, ◌%◌, ◌^◌, Bool, true, false, Option, none, some, List, [], ◌∷◌, ◌++◌, ◌==◌, if◌then◌else◌,
}
use aether_protocol.Errors.{Error, Result, ok, err, panic, diverged, or_error, guard}
use aether_protocol.Framing.Types.{FrameType, aether_version, control_stream_id}
use aether_protocol.Framing.Frame.{Frame, new_long}
use aether_protocol.Crypto.{Primitives, derive_session_key, x25519_generate_keypair, x25519_dh}
use aether_protocol.Crypto.Identity.{Identity}
use aether_protocol.Handshake.Capabilities.{Capabilities, negotiate}
use aether_protocol.Handshake.Hello.{
  ClientHello, new_client_hello, encode_client_hello, decode_client_hello, new_server_hello,
  encode_server_hello,
}

pub data HandshakeState : Type 0 where
  initial hello_sent keys_derived complete failed : HandshakeState

pub record HandshakeContext : Type 0 where
  pub state : HandshakeState
  pub our_connection_id : ℕ
  pub peer_connection_id : Option ℕ
  pub x25519_secret : Option (List ℕ)
  pub peer_x25519_public : Option (List ℕ)
  pub transcript : List ℕ
  pub session_key : Option (List ℕ)
  pub capabilities : Option Capabilities
  pub peer_identity : Option (List ℕ)
  pub is_client : Bool

unfoldable pub new_client : ℕ → HandshakeContext
new_client our_connection_id = record {
  state = initial;
  our_connection_id = our_connection_id;
  peer_connection_id = none;
  x25519_secret = none;
  peer_x25519_public = none;
  transcript = [];
  session_key = none;
  capabilities = none;
  peer_identity = none;
  is_client = true;
}

unfoldable pub new_server : HandshakeContext
new_server = record {
  state = initial;
  our_connection_id = 0;
  peer_connection_id = none;
  x25519_secret = none;
  peer_x25519_public = none;
  transcript = [];
  session_key = none;
  capabilities = none;
  peer_identity = none;
  is_client = false;
}

-- b"ClientHello:" and b"ServerHello:".
abbrev pub client_hello_label : List ℕ
client_hello_label = 67 ∷ 108 ∷ 105 ∷ 101 ∷ 110 ∷ 116 ∷ 72 ∷ 101 ∷ 108 ∷ 108 ∷ 111 ∷ 58 ∷ []

abbrev pub server_hello_label : List ℕ
server_hello_label = 83 ∷ 101 ∷ 114 ∷ 118 ∷ 101 ∷ 114 ∷ 72 ∷ 101 ∷ 108 ∷ 108 ∷ 111 ∷ 58 ∷ []

-- `?` in a method of the context: an error leaves with the state as it stands.
abbrev pub try_on {ℓ κ} :
    {A : Type ℓ} {B : Type κ}
    → HandshakeContext
    → Result A
    → (A → HandshakeContext × Result B)
    → HandshakeContext × Result B
try_on ctx (ok a) k = k a
try_on ctx (err e) k = (ctx, err e)
try_on ctx panic k = (ctx, panic)
try_on ctx diverged k = (ctx, diverged)

-- The same after a step that wrote the state.
abbrev pub then_on {ℓ κ} :
    {A : Type ℓ} {B : Type κ}
    → HandshakeContext × Result A
    → (HandshakeContext → A → HandshakeContext × Result B)
    → HandshakeContext × Result B
then_on (ctx, r) k = try_on ctx r (k ctx)

-- `(connection_id >> 32) as u32`.
abbrev pub truncated : ℕ → ℕ
truncated connection_id = connection_id / 2 ^ 32 % 2 ^ 32

-- The secret is taken out before the peer's key is looked at.
unfoldable pub derive_keys : Primitives → HandshakeContext → HandshakeContext × Result (Unit {0})
derive_keys prims ctx = try_on ctx (or_error ctx.x25519_secret Error.invalid_state) (λ our_secret.
    let ctx = record ctx { x25519_secret = none } in
    try_on ctx (or_error ctx.peer_x25519_public Error.invalid_state) (λ peer_public.
      let shared_secret = x25519_dh prims our_secret peer_public in
      try_on ctx (derive_session_key prims shared_secret ctx.transcript)
        (λ session_key. (record ctx { session_key = some session_key }, ok tt))))

unfoldable pub create_client_hello :
    Primitives
    → List ℕ
    → HandshakeContext
    → Identity
    → Capabilities
    → HandshakeContext × Result Frame
create_client_hello prims random ctx identity capabilities =
    let (public, secret) = x25519_generate_keypair prims random in
    let hello = new_client_hello ctx.our_connection_id public identity capabilities in
    let hello_data = encode_client_hello hello in
    (
      record ctx {
        x25519_secret = some secret;
        peer_x25519_public = none;
        transcript = (ctx.transcript ++ client_hello_label) ++ hello_data;
        state = hello_sent;
      },
      ok (
          new_long FrameType.initial control_stream_id (truncated ctx.our_connection_id)
            ctx.our_connection_id hello_data),
    )

-- `contains`.
abbrev pub contains_version : List ℕ → ℕ → Bool
contains_version [] v = false
contains_version (x ∷ xs) v = if x == v then true else contains_version xs v

-- The state once the client's hello is accepted, up to the derivation of the keys.
abbrev pub adopt_client_hello :
    ℕ → List ℕ → HandshakeContext → ClientHello → List ℕ → HandshakeContext
adopt_client_hello random_id secret ctx hello payload = record ctx {
  peer_connection_id = some hello.connection_id;
  our_connection_id = random_id;
  peer_x25519_public = some hello.x25519_public;
  peer_identity = some hello.identity;
  transcript = (ctx.transcript ++ client_hello_label) ++ payload;
  x25519_secret = some secret;
}

abbrev pub answer_client_hello :
    Primitives
    → ℕ
    → List ℕ
    → HandshakeContext
    → ClientHello
    → List ℕ
    → Identity
    → Capabilities
    → HandshakeContext × Result Frame
answer_client_hello prims random_id random ctx hello payload identity capabilities =
    let (public, secret) = x25519_generate_keypair prims random in
    let ctx = adopt_client_hello random_id secret ctx hello payload in
    let negotiated = negotiate capabilities hello.capabilities in
    let server_hello =
      new_server_hello prims ctx.our_connection_id hello.connection_id public identity
        ctx.transcript negotiated in
    let hello_data = encode_server_hello server_hello in
    let ctx = record ctx { transcript = (ctx.transcript ++ server_hello_label) ++ hello_data } in
    then_on (derive_keys prims ctx) (λ ctx done. (
      record ctx { capabilities = some negotiated; state = keys_derived },
      ok (
          new_long FrameType.initial control_stream_id (truncated hello.connection_id)
            ctx.our_connection_id hello_data),
    ))

unfoldable pub handle_client_hello :
    Primitives
    → ℕ
    → List ℕ
    → HandshakeContext
    → Frame
    → Identity
    → Capabilities
    → HandshakeContext × Result Frame
handle_client_hello prims random_id random ctx frame identity capabilities =
    try_on ctx (decode_client_hello frame.payload) (λ hello.
      try_on ctx
        (guard (contains_version hello.supported_versions aether_version) Error.version_negotiation)
        (λ done.
          answer_client_hello prims random_id random ctx hello frame.payload identity capabilities))
