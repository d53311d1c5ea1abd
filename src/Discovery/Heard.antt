-- ===== src/Discovery/Heard.antt =====
-- A turn of the receive loop does to the cache what its report says.
use aether_protocol.Prelude.{ℕ, ◌≡◌, arith, Bool, List, take, if◌then◌else◌}
use aether_protocol.Errors.{Result, ok, err, panic, diverged}
use aether_protocol.Crypto.{equal_bytes}
use aether_protocol.Table.Strings.{StringTable, put_entry, drop_entry}
use aether_protocol.Multipath.Path.{SocketAddr}
use aether_protocol.Discovery.Message.{
  Json, PeerInfo, DiscoveryMessage, DiscoveryMessageType, announce, query, response, goodbye,
  decode_message,
}
use aether_protocol.Discovery.Service.{
  DiscoveryService, Arrival, receive, receive_packet, handle_message, handle_decoded, handle_type,
  cache_peer, remove_peer,
}
use aether_protocol.Discovery.Book.{
  Report, there, gone, silent, message_report, decoded_report, packet_report, report,
}

-- What an arrival does to the cache.
abbrev pub heard : List ℕ → ℕ → Report → StringTable (PeerInfo × ℕ) → StringTable (PeerInfo × ℕ)
heard own now (there info) peers =
    if equal_bytes info.identity_hash own
    then peers
    else put_entry info.identity_hash (info, now) peers
heard own now (gone identity_hash) peers = drop_entry identity_hash peers
heard own now silent peers = peers

handle_type-heard :
    (json : Json PeerInfo) (locked : Bool) (now : ℕ) (io : Result (Unit {0})) (src : SocketAddr)
    (info : PeerInfo) (t : DiscoveryMessageType) (service : DiscoveryService)
    → (handle_type json locked now io src info t service).0 ≡ record service {
      peers =
          heard service.our_info.identity_hash now
            (if locked then message_report t info else silent)
            service.peers;
    }
unfolding handle_type cache_peer remove_peer
handle_type-heard json locked now io src info announce service = ground arith
handle_type-heard json locked now io src info query service = ground arith
handle_type-heard json locked now io src info goodbye service = ground arith
handle_type-heard json locked now io src info response service = ground arith

pub receive-heard :
    (json : Json PeerInfo) (a : Arrival) (service : DiscoveryService)
    → (receive json a service).0 ≡ record service {
      peers = heard service.our_info.identity_hash a.time (report json a) service.peers;
    }
unfolding receive handle_message
receive-heard json a service = by_packet a.packet
  where
    by_packet :
        (p : Result (List ℕ × SocketAddr))
        → (receive_packet json a p service).0 ≡ record service {
          peers =
              heard service.our_info.identity_hash a.time
                (if a.locked then packet_report json p else silent)
                service.peers;
        }
    by_packet (ok (bytes, src)) = by_message (decode_message json (take 2048 bytes))
      where
        by_message :
            (m : Result DiscoveryMessage)
            → (handle_decoded json a.locked a.time a.reply src m service).0 ≡ record service {
              peers =
                  heard service.our_info.identity_hash a.time
                    (if a.locked then decoded_report m else silent)
                    service.peers;
            }
        by_message (ok msg) =
            handle_type-heard json a.locked a.time a.reply src msg.peer_info msg.msg_type service
        by_message (err e) = ground arith
        by_message panic = ground arith
        by_message diverged = ground arith
    by_packet (err e) = ground arith
    by_packet panic = ground arith
    by_packet diverged = ground arith
