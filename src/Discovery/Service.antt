-- ===== src/Discovery/Service.antt =====
-- aether-core/src/discovery.rs: `DiscoveryService`. What the socket answers, the clock, and whether
-- `try_lock` gets the lock of the cache are arguments of a call; the datagrams that the socket is
-- given are a result. An `Instant` is a number of nanoseconds.
use aether_protocol.Prelude.{
  ℕ, ◌*◌, ◌-◌, ◌^◌, Bool, Option, none, some, List, [], ◌∷◌, ◌++◌, map, take, ltb, if◌then◌else◌,
}
use aether_protocol.Errors.{Result, ok, err, panic, diverged, ◌>>=◌, ◌>>◌}
use aether_protocol.Table.Strings.{StringTable, put_entry, drop_entry, retain_entries, values}
use aether_protocol.Crypto.{equal_bytes}
use aether_protocol.Crypto.Identity.{Identity}
use aether_protocol.Crypto.Hex.{Hex}
use aether_protocol.Multipath.Path.{SocketAddr}
use aether_protocol.Discovery.Message.{
  Json, PeerInfo, DiscoveryMessage, DiscoveryMessageType, announce, query, response, goodbye,
  from_identity, new_announce, new_goodbye, encode_message, decode_message,
}

-- 224.0.0.252 and its port.
abbrev pub mdns_group : SocketAddr
mdns_group = record { ip = 224 ∷ 0 ∷ 0 ∷ 252 ∷ []; port = 9001 }

-- Five minutes.
abbrev pub cache_ttl : ℕ
cache_ttl = 300 * 10 ^ 9

-- The cache holds, for an identity, what was heard of it and when.
pub record DiscoveryService : Type 0 where
  pub peers : StringTable (PeerInfo × ℕ)
  pub our_info : PeerInfo
  pub group_addr : SocketAddr

abbrev pub Datagram : Type 0
Datagram = List ℕ × SocketAddr

-- The socket's answers to `bind`, `join_multicast_v4` and `local_addr` come first.
unfoldable pub bind :
    Result (Unit {0})
    → Result (Unit {0})
    → Result SocketAddr
    → Hex
    → ℕ
    → ℕ
    → Identity
    → ℕ
    → Result DiscoveryService
bind bound joined local hex now connection_id identity port = do
  bound
  joined
  local_addr ← local
  ok (record {
    peers = [];
    our_info = from_identity hex now identity (local_addr ∷ []) connection_id;
    group_addr = mdns_group;
  })

unfoldable pub send_announce :
    Json PeerInfo → ℕ → Result (Unit {0}) → DiscoveryService → List Datagram × Result (Unit {0})
send_announce json now io service =
    let fresh_info = record service.our_info { timestamp = now } in
    ((encode_message json (new_announce fresh_info), service.group_addr) ∷ [], io)

-- One announcement at once and one for each tick; a failure is logged.
unfoldable pub announce_loop :
    Json PeerInfo
    → ℕ × Result (Unit {0})
    → List (ℕ × Result (Unit {0}))
    → DiscoveryService
    → List Datagram
announce_loop json (now, io) [] service = (send_announce json now io service).0
announce_loop json (now, io) (tick ∷ ticks) service =
    (send_announce json now io service).0 ++ announce_loop json tick ticks service

unfoldable pub cache_peer : Bool → ℕ → PeerInfo → DiscoveryService → DiscoveryService
cache_peer locked now peer_info service =
    if equal_bytes peer_info.identity_hash service.our_info.identity_hash
    then service
    else if locked
    then record service { peers = put_entry peer_info.identity_hash (peer_info, now) service.peers }
    else service

unfoldable pub remove_peer : Bool → List ℕ → DiscoveryService → DiscoveryService
remove_peer locked identity_hash service =
    if locked then record service { peers = drop_entry identity_hash service.peers } else service

-- The `match` on the type of a message.
unfoldable pub handle_type :
    Json PeerInfo
    → Bool
    → ℕ
    → Result (Unit {0})
    → SocketAddr
    → PeerInfo
    → DiscoveryMessageType
    → DiscoveryService
    → DiscoveryService × List Datagram × Result (Unit {0})
handle_type json locked now io src_addr info announce service =
    if equal_bytes info.identity_hash service.our_info.identity_hash
    then (service, [], ok tt)
    else (cache_peer locked now info service, [], ok tt)
handle_type json locked now io src_addr info query service =
    (service, (encode_message json (new_announce service.our_info), src_addr) ∷ [], io)
handle_type json locked now io src_addr info goodbye service =
    (remove_peer locked info.identity_hash service, [], ok tt)
handle_type json locked now io src_addr info response service =
    (cache_peer locked now info service, [], ok tt)

abbrev pub handle_decoded :
    Json PeerInfo
    → Bool
    → ℕ
    → Result (Unit {0})
    → SocketAddr
    → Result DiscoveryMessage
    → DiscoveryService
    → DiscoveryService × List Datagram × Result (Unit {0})
handle_decoded json locked now io src_addr (ok msg) service =
    handle_type json locked now io src_addr msg.peer_info msg.msg_type service
handle_decoded json locked now io src_addr (err e) service = (service, [], err e)
handle_decoded json locked now io src_addr panic service = (service, [], panic)
handle_decoded json locked now io src_addr diverged service = (service, [], diverged)

unfoldable pub handle_message :
    Json PeerInfo
    → Bool
    → ℕ
    → Result (Unit {0})
    → List ℕ
    → SocketAddr
    → DiscoveryService
    → DiscoveryService × List Datagram × Result (Unit {0})
handle_message json locked now io bytes src_addr service =
    handle_decoded json locked now io src_addr (decode_message json bytes) service

-- What a turn of `receive_loop` meets: the socket's answer, the lock, the clock, and the answer to
-- what is sent in return.
pub record Arrival : Type 0 where
  pub packet : Result (List ℕ × SocketAddr)
  pub locked : Bool
  pub time : ℕ
  pub reply : Result (Unit {0})

abbrev pub receive_packet :
    Json PeerInfo
    → Arrival
    → Result (List ℕ × SocketAddr)
    → DiscoveryService
    → DiscoveryService × List Datagram
receive_packet json a (ok (bytes, src_addr)) service =
    let done = handle_message json a.locked a.time a.reply (take 2048 bytes) src_addr service in
    (done.0, done.1)
receive_packet json a (err e) service = (service, [])
receive_packet json a panic service = (service, [])
receive_packet json a diverged service = (service, [])

-- A turn of the loop; an error is logged. The buffer has 2048 bytes.
unfoldable pub receive :
    Json PeerInfo → Arrival → DiscoveryService → DiscoveryService × List Datagram
receive json a service = receive_packet json a a.packet service

abbrev pub is_live : ℕ → PeerInfo × ℕ → Bool
is_live now (info, cached_at) = ltb (now - cached_at) cache_ttl

unfoldable pub get_peers : ℕ → DiscoveryService → DiscoveryService × List PeerInfo
get_peers now service =
    let peers = retain_entries (is_live now) service.peers in
    (record service { peers = peers }, map (λ e. e.0) (values peers))

-- `into_iter().find(…)`.
unfoldable pub find_info : List ℕ → List PeerInfo → Option PeerInfo
find_info identity_hash [] = none
find_info identity_hash (info ∷ infos) =
    if equal_bytes info.identity_hash identity_hash
    then some info
    else find_info identity_hash infos

unfoldable pub find_peer : ℕ → List ℕ → DiscoveryService → DiscoveryService × Option PeerInfo
find_peer now identity_hash service =
    let found = get_peers now service in (found.0, find_info identity_hash found.1)

unfoldable pub shutdown :
    Json PeerInfo → Result (Unit {0}) → DiscoveryService → List Datagram × Result (Unit {0})
shutdown json io service =
    ((encode_message json (new_goodbye service.our_info), service.group_addr) ∷ [], io)

unfoldable pub our_identity : DiscoveryService → List ℕ
our_identity service = service.our_info.identity_hash
