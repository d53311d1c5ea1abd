-- ===== src/Discovery/Message.antt =====
-- aether-core/src/discovery.rs: `PeerInfo` and `DiscoveryMessage`. A string is its bytes. The crate
-- `serde_json` is the parameter `Json`.
use aether_protocol.Prelude.{
  ℕ, Option, none, some, List, [], ◌∷◌, ◌++◌, length, ltb, ◌==◌, if◌then◌else◌,
}
use aether_protocol.Errors.{Error, Result, ok, err, ◌>>=◌, ◌>>◌, guard, or_error, index, slice_from}
use aether_protocol.Crypto.{equal_bytes}
use aether_protocol.Crypto.Identity.{Identity}
use aether_protocol.Crypto.Hex.{Hex, hash_hex}
use aether_protocol.Framing.Types.{aether_version}
use aether_protocol.Multipath.Path.{SocketAddr}

-- `to_vec` and `from_slice` at one type.
pub record Json (A : Type 0) : Type 0 where
  pub to_vec : A → Option (List ℕ)
  pub from_slice : List ℕ → Option A

pub data DiscoveryMessageType : Type 0 where
  announce query response goodbye : DiscoveryMessageType

-- `msg_type as u8`.
unfoldable pub message_type_to_u8 : DiscoveryMessageType → ℕ
message_type_to_u8 announce = 0x01
message_type_to_u8 query = 0x02
message_type_to_u8 response = 0x03
message_type_to_u8 goodbye = 0x04

unfoldable pub message_type_from_u8 : ℕ → Option DiscoveryMessageType
message_type_from_u8 n =
    if n == 0x01
    then some announce
    else if n == 0x02
    then some query
    else if n == 0x03
    then some response
    else if n == 0x04
    then some goodbye
    else none

pub record PeerInfo : Type 0 where
  pub identity_hash : List ℕ
  pub public_key : List ℕ
  pub addresses : List SocketAddr
  pub connection_id : ℕ
  pub timestamp : ℕ
  pub version : ℕ
  pub capabilities : List (List ℕ)

-- "aether-v0" and "multipath".
abbrev pub own_capabilities : List (List ℕ)
own_capabilities =
    (97 ∷ 101 ∷ 116 ∷ 104 ∷ 101 ∷ 114 ∷ 45 ∷ 118 ∷ 48 ∷ [])
    ∷ (109 ∷ 117 ∷ 108 ∷ 116 ∷ 105 ∷ 112 ∷ 97 ∷ 116 ∷ 104 ∷ [])
    ∷ []

-- The time is the number of seconds since 1970.
unfoldable pub from_identity : Hex → ℕ → Identity → List SocketAddr → ℕ → PeerInfo
from_identity hex now identity addresses connection_id = record {
  identity_hash = hash_hex hex identity;
  public_key = hex.hex_encode identity.public_key;
  addresses = addresses;
  connection_id = connection_id;
  timestamp = now;
  version = aether_version;
  capabilities = own_capabilities;
}

-- `unwrap_or_default`.
unfoldable pub encode_json : {A : Type 0} → Json A → A → List ℕ
encode_json json a = elim (json.to_vec a) [ none ↦ [] | some bytes ↦ bytes ]

unfoldable pub decode_json : {A : Type 0} → Json A → List ℕ → Result A
decode_json json bytes = or_error (json.from_slice bytes) Error.protocol_violation

-- b"AED$".
abbrev pub discovery_magic : List ℕ
discovery_magic = 65 ∷ 69 ∷ 68 ∷ 36 ∷ []

pub record DiscoveryMessage : Type 0 where
  pub magic : List ℕ
  pub msg_type : DiscoveryMessageType
  pub version : ℕ
  pub peer_info : PeerInfo

unfoldable pub new_announce : PeerInfo → DiscoveryMessage
new_announce peer_info = record {
  magic = discovery_magic;
  msg_type = announce;
  version = aether_version;
  peer_info = peer_info;
}

unfoldable pub new_query : DiscoveryMessage
new_query = record {
  magic = discovery_magic;
  msg_type = query;
  version = aether_version;
  peer_info = record {
    identity_hash = [];
    public_key = [];
    addresses = [];
    connection_id = 0;
    timestamp = 0;
    version = aether_version;
    capabilities = [];
  };
}

unfoldable pub new_goodbye : PeerInfo → DiscoveryMessage
new_goodbye peer_info = record {
  magic = discovery_magic;
  msg_type = goodbye;
  version = aether_version;
  peer_info = peer_info;
}

unfoldable pub encode_message : Json PeerInfo → DiscoveryMessage → List ℕ
encode_message json msg =
    msg.magic
    ++ (message_type_to_u8 msg.msg_type ∷ [])
    ++ (msg.version ∷ [])
    ++ encode_json json msg.peer_info

unfoldable pub decode_message : Json PeerInfo → List ℕ → Result DiscoveryMessage
decode_message json bytes = if ltb (length bytes) 6 then err Error.protocol_violation else do
  b0 ← index bytes 0
  b1 ← index bytes 1
  b2 ← index bytes 2
  b3 ← index bytes 3
  let magic = b0 ∷ b1 ∷ b2 ∷ b3 ∷ []
  guard (equal_bytes magic discovery_magic) Error.protocol_violation
  b4 ← index bytes 4
  msg_type ← or_error (message_type_from_u8 b4) Error.protocol_violation
  version ← index bytes 5
  info ← slice_from bytes 6
  peer_info ← decode_json json info
  ok (record { magic = magic; msg_type = msg_type; version = version; peer_info = peer_info })
