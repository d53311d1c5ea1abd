-- ===== src/Discovery/Tests.antt =====
-- Concrete runs of the discovery.
use mathlib.Core.Option
use aether_protocol.Prelude.{
  ℕ, zero, suc, ◌+◌, ◌*◌, ◌^◌, ◌<◌, ◌≤◌, ◌≡◌, ◌↔◌, inl, refl, arith, true, false, none, some, List,
  [], ◌∷◌,
}
use aether_protocol.Errors.{ok}
use aether_protocol.Table.Strings.{find_entry, kept}
use aether_protocol.Multipath.Path.{SocketAddr}
use aether_protocol.Discovery.Message.{
  PeerInfo, DiscoveryMessage, new_announce, new_query, new_goodbye, encode_message, decode_message,
  message_type_to_u8, message_type_from_u8, encode_json, decode_json, own_capabilities,
}
use aether_protocol.Discovery.MessageRoundTrip.{Fits, decode-encode_message}
use aether_protocol.Discovery.Service.{
  DiscoveryService, handle_message, find_peer, our_identity, is_live, mdns_group,
}
use aether_protocol.Discovery.Book.{Turn, arrived, asked, take_turns, note_turns, empty_book}
use aether_protocol.Discovery.Cache.{find_peer-book}
use aether_protocol.Discovery.Unauthenticated.{handle_message_trusts}
use aether_protocol.Discovery.Dht.{xor_distance, distance_order, is_expired, new_dht_record}
use aether_protocol.Discovery.Distance.{IsKey, distance, distance_metric}
use aether_protocol.Discovery.Sample.{sample_json, sample_json-JsonLawful}

-- "a1" and "b2" stand for the hashes of two nodes.
abbrev peer_info : List ℕ → PeerInfo
peer_info identity_hash = record {
  identity_hash = identity_hash;
  public_key = 99 ∷ 48 ∷ [];
  addresses = record { ip = 10 ∷ 0 ∷ 0 ∷ 2 ∷ []; port = 9000 } ∷ [];
  connection_id = 42;
  timestamp = 1700000000;
  version = 0;
  capabilities = own_capabilities;
}

abbrev ours : PeerInfo
ours = peer_info (97 ∷ 49 ∷ [])

abbrev theirs : PeerInfo
theirs = peer_info (98 ∷ 50 ∷ [])

abbrev src : SocketAddr
src = record { ip = 10 ∷ 0 ∷ 0 ∷ 9 ∷ []; port = 9001 }

abbrev service : DiscoveryService
service = record { peers = []; our_info = ours; group_addr = mdns_group }

theirs_fit : Fits theirs
theirs_fit = record {
  hash_ascii = (omega arith, (omega arith, tt));
  key_ascii = (omega arith, (omega arith, tt));
  addresses_fit = (
    record {
      ip_length = inl refl;
      ip_bytes = (omega arith, (omega arith, (omega arith, (omega arith, tt))));
      port_lt = omega arith;
    },
    tt,
  );
  connection_id_lt = omega arith;
  timestamp_lt = omega arith;
  version_lt = omega arith;
  capabilities_ascii = search arith;
}

decode-encode_message_example :
    decode_message sample_json (encode_message sample_json (new_announce theirs))
    ≡ ok (new_announce theirs)
unfolding new_announce
decode-encode_message_example =
    decode-encode_message sample_json (new_announce theirs) sample_json-JsonLawful refl theirs_fit

-- A second, in nanoseconds.
abbrev second : ℕ
second = 10 ^ 9

abbrev arrival : ℕ → DiscoveryMessage → Turn
arrival time msg = arrived (record {
  packet = ok (encode_message sample_json msg, src);
  locked = true;
  time = time;
  reply = ok tt;
})

-- The peer is announced, asked for when it is too old, and announced again.
abbrev turns : List Turn
turns =
    arrival second (new_announce theirs)
    ∷ arrival second (new_announce ours)
    ∷ asked (400 * second)
    ∷ arrival (500 * second) (new_announce theirs)
    ∷ []

find_peer-book_example :
    (find_peer (600 * second) theirs.identity_hash (take_turns sample_json turns service)).1
    ≡ Option.map
        (λ e. e.0)
        (kept
          (is_live (600 * second))
          (note_turns sample_json (our_identity service) turns empty_book theirs.identity_hash))
find_peer-book_example =
    find_peer-book sample_json 0 (600 * second) turns service theirs.identity_hash refl
      (omega arith, (omega arith, (omega arith, (omega arith, omega arith))))

handle_message_trusts_example :
    let told = λ (msg : DiscoveryMessage).
      (handle_message sample_json true 7 (ok tt) (encode_message sample_json msg) src service).0 in
    (find_entry theirs.identity_hash (told (new_announce theirs)).peers ≡ some (theirs, 7))
    × (find_entry theirs.identity_hash (told (new_goodbye theirs)).peers ≡ none)
handle_message_trusts_example =
    handle_message_trusts sample_json theirs 7 (ok tt) src service sample_json-JsonLawful theirs_fit
      refl

abbrev zeros : ℕ → List ℕ
zeros zero = []
zeros (suc n) = 0 ∷ zeros n

abbrev key : ℕ → List ℕ
key first = first ∷ zeros 31

key-IsKey : (first : ℕ) → first < 256 → IsKey (key first)
key-IsKey first h = record { key_length = refl; key_bytes = search (arith, h) }

distance_metric_example :
    ((distance (key 1) (key 2) ≡ 0) ↔ (key 1 ≡ key 2))
    × (distance (key 1) (key 2) ≡ distance (key 2) (key 1))
    × (distance (key 1) (key 7) ≤ distance (key 1) (key 2) + distance (key 2) (key 7))
    × ((distance (key 1) (key 2) ≡ distance (key 1) (key 7)) ↔ (key 2 ≡ key 7))
distance_metric_example =
    distance_metric (key 1) (key 2) (key 7) (key-IsKey 1 (omega arith)) (key-IsKey 2 (omega arith))
      (key-IsKey 7 (omega arith))

-- The tests of the source.
query_round_trip : decode_message sample_json (encode_message sample_json new_query) ≡ ok new_query
unfolding new_query encode_message decode_message encode_json decode_json message_type_to_u8
    message_type_from_u8
query_round_trip = refl

test_xor_distance : xor_distance (0xFF ∷ zeros 31) (zeros 32) ≡ 0xFF ∷ zeros 31
unfolding xor_distance
test_xor_distance = refl

order_of_first : distance_order (1 ∷ zeros 31) ≡ 0x01000000
unfolding distance_order
order_of_first = refl

-- An entry expires when its time is over, and not before.
record_expires :
    let r = new_dht_record 1000 (97 ∷ []) [] 42 60 in
    (is_expired 1059 r ≡ false) × (is_expired 1060 r ≡ true)
unfolding is_expired new_dht_record
record_expires = (refl, refl)
