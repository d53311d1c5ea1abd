-- ===== src/Discovery/Unauthenticated.antt =====
-- What a datagram of anybody does to the entry of a peer.
use aether_protocol.Prelude.{ℕ, ◌≡◌, refl, ap, ◌∙◌, true, false, none, some}
use aether_protocol.Errors.{Result}
use aether_protocol.Crypto.{equal_bytes, equal_bytes_refl}
use aether_protocol.Table.Strings.{find_entry, find-put, find-drop}
use aether_protocol.Multipath.Path.{SocketAddr}
use aether_protocol.Discovery.Message.{
  Json, PeerInfo, DiscoveryMessage, new_announce, new_goodbye, encode_message,
}
use aether_protocol.Discovery.MessageRoundTrip.{Fits, JsonLawful, decode-encode_message}
use aether_protocol.Discovery.Service.{
  DiscoveryService, handle_message, handle_decoded, handle_type, cache_peer, remove_peer,
}

-- Whatever the source address: if the JSON of peer information that fits can be read back and the
-- lock is free, an announcement about an identity other than the own one puts its information into
-- the cache, and a goodbye about it deletes the entry.
pub handle_message_trusts :
    (json : Json PeerInfo) (info : PeerInfo) (now : ℕ) (io : Result (Unit {0})) (src : SocketAddr)
    (service : DiscoveryService)
    → JsonLawful json
    → Fits info
    → equal_bytes info.identity_hash service.our_info.identity_hash ≡ false
    → let told = λ (msg : DiscoveryMessage).
      (handle_message json true now io (encode_message json msg) src service).0 in
      (find_entry info.identity_hash (told (new_announce info)).peers ≡ some (info, now))
      × (find_entry info.identity_hash (told (new_goodbye info)).peers ≡ none)
unfolding handle_message handle_type cache_peer remove_peer new_announce new_goodbye
handle_message_trusts json info now io src service lawful fits foreign =
    let hash = info.identity_hash in
    (
      ap (λ m. find_entry hash (handle_decoded json true now io src m service).0.peers)
            (decode-encode_message json (new_announce info) lawful refl fits)
          ∙ rw (foreign, find-put hash hash (info, now) service.peers, equal_bytes_refl hash) refl,
      ap (λ m. find_entry hash (handle_decoded json true now io src m service).0.peers)
            (decode-encode_message json (new_goodbye info) lawful refl fits)
          ∙ rw (find-drop hash hash service.peers, equal_bytes_refl hash) refl,
    )
