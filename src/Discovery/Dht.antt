-- ===== src/Discovery/Dht.antt =====
-- aether-core/src/discovery.rs: the keys, the records and the distance of the global table.
use aether_protocol.Prelude.{ℕ, ◌+◌, ◌%◌, ◌^◌, Bool, List, [], ◌∷◌, ◌++◌, leb, take, bit_xor}
use aether_protocol.Prelude.Bytes.{from_be}
use aether_protocol.Crypto.{Primitives}
use aether_protocol.Errors.{Result}
use aether_protocol.Multipath.Path.{SocketAddr}
use aether_protocol.Discovery.Message.{Json, encode_json, decode_json}

-- b"aether-dht:".
abbrev dht_prefix : List ℕ
dht_prefix = 97 ∷ 101 ∷ 116 ∷ 104 ∷ 101 ∷ 114 ∷ 45 ∷ 100 ∷ 104 ∷ 116 ∷ 58 ∷ []

unfoldable pub dht_key : Primitives → List ℕ → List ℕ
dht_key prims identity_hash = prims.sha256 (dht_prefix ++ identity_hash)

pub record DhtRecord : Type 0 where
  pub identity_hash : List ℕ
  pub addresses : List SocketAddr
  pub connection_id : ℕ
  pub created : ℕ
  pub ttl : ℕ

-- Times are seconds since 1970.
unfoldable pub new_dht_record : ℕ → List ℕ → List SocketAddr → ℕ → ℕ → DhtRecord
new_dht_record now identity_hash addresses connection_id ttl = record {
  identity_hash = identity_hash;
  addresses = addresses;
  connection_id = connection_id;
  created = now;
  ttl = ttl;
}

unfoldable pub is_expired : ℕ → DhtRecord → Bool
is_expired now r = leb ((r.created + r.ttl) % 2 ^ 64) now

unfoldable pub encode_record : Json DhtRecord → DhtRecord → List ℕ
encode_record json r = encode_json json r

unfoldable pub decode_record : Json DhtRecord → List ℕ → Result DhtRecord
decode_record json bytes = decode_json json bytes

-- The arrays of the source have 32 bytes.
unfoldable pub xor_distance : List ℕ → List ℕ → List ℕ
xor_distance [] bs = []
xor_distance (a ∷ rest) [] = []
xor_distance (a ∷ rest) (b ∷ bs) = bit_xor a b ∷ xor_distance rest bs

-- The first four bytes as a number.
unfoldable pub distance_order : List ℕ → ℕ
distance_order distance = from_be (take 4 distance)
