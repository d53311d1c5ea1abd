-- ===== src/Discovery/Book.antt =====
-- What a service hears: the reports of the datagrams, and the book of the last report of each peer.
use aether_protocol.Prelude.{ℕ, ◌≤◌, Option, none, some, List, [], ◌∷◌, take, if◌then◌else◌}
use aether_protocol.Errors.{Result, ok, err, panic, diverged}
use aether_protocol.Crypto.{equal_bytes}
use aether_protocol.Multipath.Path.{SocketAddr}
use aether_protocol.Discovery.Message.{
  Json, PeerInfo, DiscoveryMessage, DiscoveryMessageType, announce, query, response, goodbye,
  decode_message,
}
use aether_protocol.Discovery.Service.{DiscoveryService, Arrival, receive, get_peers}

-- What a datagram says: that a peer is there, that it has gone, or nothing.
pub data Report : Type 0 where
  there : PeerInfo → Report
  gone : List ℕ → Report
  silent : Report

abbrev pub message_report : DiscoveryMessageType → PeerInfo → Report
message_report announce info = there info
message_report response info = there info
message_report goodbye info = gone info.identity_hash
message_report query info = silent

abbrev pub decoded_report : Result DiscoveryMessage → Report
decoded_report (ok msg) = message_report msg.msg_type msg.peer_info
decoded_report (err e) = silent
decoded_report panic = silent
decoded_report diverged = silent

abbrev pub packet_report : Json PeerInfo → Result (List ℕ × SocketAddr) → Report
packet_report json (ok (bytes, src_addr)) = decoded_report (decode_message json (take 2048 bytes))
packet_report json (err e) = silent
packet_report json panic = silent
packet_report json diverged = silent

-- A lock that is taken loses the report.
abbrev pub report : Json PeerInfo → Arrival → Report
report json a = if a.locked then packet_report json a.packet else silent

-- The last thing heard of every identity, with the time; `own` hears nothing of itself.
abbrev pub Book : Type 0
Book = List ℕ → Option (PeerInfo × ℕ)

abbrev pub note : List ℕ → ℕ → Report → Book → Book
note own now (there info) book = λ key.
    if equal_bytes info.identity_hash own
    then book key
    else if equal_bytes info.identity_hash key
    then some (info, now)
    else book key
note own now (gone identity_hash) book =
    λ key. if equal_bytes identity_hash key then none else book key
note own now silent book = book

-- The service's turns: an arrival, or a question that throws old entries out.
pub data Turn : Type 0 where
  arrived : Arrival → Turn
  asked : ℕ → Turn

abbrev pub turn_time : Turn → ℕ
turn_time (arrived a) = a.time
turn_time (asked now) = now

unfoldable pub take_turn : Json PeerInfo → Turn → DiscoveryService → DiscoveryService
take_turn json (arrived a) service = (receive json a service).0
take_turn json (asked now) service = (get_peers now service).0

abbrev pub note_turn : Json PeerInfo → List ℕ → Turn → Book → Book
note_turn json own (arrived a) book = note own a.time (report json a) book
note_turn json own (asked now) book = book

unfoldable pub take_turns : Json PeerInfo → List Turn → DiscoveryService → DiscoveryService
take_turns json [] service = service
take_turns json (t ∷ ts) service = take_turns json ts (take_turn json t service)

abbrev pub note_turns : Json PeerInfo → List ℕ → List Turn → Book → Book
note_turns json own [] book = book
note_turns json own (t ∷ ts) book = note_turns json own ts (note_turn json own t book)

abbrev pub InOrder : ℕ → List Turn → ℕ → Type 0
InOrder start [] last = start ≤ last
InOrder start (t ∷ ts) last = (start ≤ turn_time t) × InOrder (turn_time t) ts last

-- The book of a service that has heard nothing.
abbrev pub empty_book : Book
empty_book key = none
