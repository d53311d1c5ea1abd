-- ===== src/Discovery/Cache.antt =====
-- What the cache of peers stands for: the last thing heard of each identity, for five minutes.
use aether_protocol.Prelude.{
  ℕ, ◌≤◌, ◌≡◌, inl, inr, refl, sym, ap, ◌∙◌, arith, Bool-cases, Option, none, some, List, [], ◌∷◌,
}
use mathlib.Core.Path.{subst}
use mathlib.Core.Option
use aether_protocol.Crypto.{equal_bytes}
use aether_protocol.Table.Strings.{
  Distinct, find_entry, retain_entries, kept, find-put, find-drop, find-retain, put-Distinct,
  drop-Distinct, retain-Distinct,
}
use aether_protocol.Discovery.Message.{Json, PeerInfo}
use aether_protocol.Discovery.Service.{
  DiscoveryService, get_peers, find_peer, our_identity, is_live,
}
use aether_protocol.Discovery.Book.{
  Report, there, gone, silent, report, Book, note, Turn, arrived, asked, turn_time, take_turn,
  note_turn, take_turns, note_turns, InOrder, empty_book,
}
use aether_protocol.Discovery.Keyed.{Keyed, put-Keyed, drop-Keyed, retain-Keyed, find_info-values}
use aether_protocol.Discovery.Heard.{heard, receive-heard}

-- At every time from `start` on, the live entries are those of the book.
record Agrees (start : ℕ) (service : DiscoveryService) (book : Book) : Type 0 where
  distinct : Distinct service.peers
  keyed : Keyed service.peers
  live :
      (now : ℕ) (key : List ℕ)
      → start ≤ now
      → kept (is_live now) (find_entry key service.peers) ≡ kept (is_live now) (book key)

-- What is not live stays so.
kept-kept :
    (t now : ℕ) (o : Option (PeerInfo × ℕ))
    → t ≤ now
    → kept (is_live now) (kept (is_live t) o) ≡ kept (is_live now) o
kept-kept t now none h = refl
kept-kept t now (some (info, at)) h = ground arith

later :
    (start now : ℕ) (service : DiscoveryService) (book : Book)
    → start ≤ now
    → Agrees start service book
    → Agrees now service book
later start now service book le agrees = record {
  distinct = agrees.distinct;
  keyed = agrees.keyed;
  live = λ t key after. agrees.live t key (omega arith);
}

heard-Agrees :
    (start now : ℕ) (r : Report) (service : DiscoveryService) (book : Book)
    → start ≤ now
    → Agrees start service book
    → Agrees now
        (record service { peers = heard service.our_info.identity_hash now r service.peers })
        (note service.our_info.identity_hash now r book)
heard-Agrees start now silent service book le agrees = later start now service book le agrees
heard-Agrees start now (gone hash) service book le agrees = record {
  distinct = drop-Distinct hash service.peers agrees.distinct;
  keyed = drop-Keyed hash service.peers agrees.keyed;
  live = λ t key after.
      ap (kept (is_live t)) (find-drop hash key service.peers)
      ∙ elim (Bool-cases (equal_bytes hash key)) [
        | inl same ↦ rw same refl
        | inr other ↦ rw other (agrees.live t key (omega arith))
      ];
}
heard-Agrees start now (there info) service book le agrees =
    let hash = info.identity_hash in
    elim (Bool-cases (equal_bytes hash service.our_info.identity_hash)) [
      | inl own ↦ record {
        distinct = rw own agrees.distinct;
        keyed = rw own agrees.keyed;
        live = λ t key after. rw own (agrees.live t key (omega arith));
      }
      | inr foreign ↦ record {
        distinct = rw foreign (put-Distinct hash (info, now) service.peers agrees.distinct);
        keyed = rw foreign (put-Keyed info now service.peers agrees.keyed);
        live = λ t key after. rw foreign (
            ap (kept (is_live t)) (find-put hash key (info, now) service.peers)
            ∙ elim (Bool-cases (equal_bytes hash key)) [
              | inl same ↦ rw same refl
              | inr other ↦ rw other (agrees.live t key (omega arith))
            ]);
      }
    ]

turn-Agrees :
    (json : Json PeerInfo) (start : ℕ) (t : Turn) (service : DiscoveryService) (book : Book)
    → start ≤ turn_time t
    → Agrees start service book
    → Agrees
        (turn_time t)
        (take_turn json t service)
        (note_turn json service.our_info.identity_hash t book)
unfolding take_turn get_peers
turn-Agrees json start (asked t) service book le agrees = record {
  distinct = retain-Distinct (is_live t) service.peers agrees.distinct;
  keyed = retain-Keyed (is_live t) service.peers agrees.keyed;
  live = λ now key after.
      ap (kept (is_live now)) (find-retain (is_live t) key service.peers agrees.distinct)
      ∙ kept-kept t now (find_entry key service.peers) after
      ∙ agrees.live now key (omega arith);
}
turn-Agrees json start (arrived a) service book le agrees =
    subst (λ s. Agrees a.time s (note service.our_info.identity_hash a.time (report json a) book))
      (sym (receive-heard json a service))
      (heard-Agrees start a.time (report json a) service book le agrees)

-- The identity of the service does not change.
turn-our_info :
    (json : Json PeerInfo) (t : Turn) (service : DiscoveryService)
    → (take_turn json t service).our_info ≡ service.our_info
unfolding take_turn get_peers
turn-our_info json (arrived a) service = ap (λ s. s.our_info) (receive-heard json a service)
turn-our_info json (asked now) service = refl

turns-Agrees :
    (json : Json PeerInfo) (start last : ℕ) (ts : List Turn) (service : DiscoveryService)
    (book : Book)
    → InOrder start ts last
    → Agrees start service book
    → Agrees last
        (take_turns json ts service)
        (note_turns json service.our_info.identity_hash ts book)
unfolding take_turns
turns-Agrees json start last [] service book le agrees = later start last service book le agrees
turns-Agrees json start last (t ∷ ts) service book le agrees =
    let after = take_turn json t service in
    subst
      (λ i.
        Agrees last (take_turns json ts after) (
          note_turns json i.identity_hash ts
            (note_turn json service.our_info.identity_hash t book)))
      (turn-our_info json t service)
      (turns-Agrees json (turn_time t) last ts after
        (note_turn json service.our_info.identity_hash t book) le.1
        (turn-Agrees json start t service book le.0 agrees))

-- From an empty cache, after any turns of the service, arrivals and questions in the order of
-- time, and from any socket and lock: `find_peer` returns what the book of the reports has for the
-- identity, if it was noted within the last five minutes. The book takes the last announcement or
-- response about an identity other than the own one, a goodbye deletes the entry, and an arrival
-- that meets a taken lock or does not decode is no report.
pub find_peer-book :
    (json : Json PeerInfo) (start now : ℕ) (ts : List Turn) (service : DiscoveryService)
    (key : List ℕ)
    → service.peers ≡ []
    → InOrder start ts now
    → (find_peer now key (take_turns json ts service)).1
      ≡ Option.map
          (λ e. e.0)
          (kept (is_live now) (note_turns json (our_identity service) ts empty_book key))
unfolding find_peer get_peers our_identity find_entry
find_peer-book json start now ts service key fresh o =
    let after = take_turns json ts service in
    let first : Agrees start service empty_book = record {
      distinct = rw fresh tt;
      keyed = rw fresh tt;
      live = λ t k le. ap (λ m. kept (is_live t) (find_entry k m)) fresh;
    } in
    let agrees = turns-Agrees json start now ts service empty_book o first in
    find_info-values key (retain_entries (is_live now) after.peers)
      (retain-Keyed (is_live now) after.peers agrees.keyed)
    ∙ ap (Option.map (λ e. e.0)) (
        find-retain (is_live now) key after.peers agrees.distinct
        ∙ agrees.live now key (omega arith))

note-own :
    (own : List ℕ) (now : ℕ) (r : Report) (book : Book)
    → book own ≡ none
    → note own now r book own ≡ none
note-own own now (there info) book e = elim (Bool-cases (equal_bytes info.identity_hash own)) [
  | inl same ↦ rw same e
  | inr other ↦ rw other e
]
note-own own now (gone hash) book e = ground (arith, e)
note-own own now silent book e = e

note_turns-own :
    (json : Json PeerInfo) (own : List ℕ) (ts : List Turn) (book : Book)
    → book own ≡ none
    → note_turns json own ts book own ≡ none
note_turns-own json own [] book e = e
note_turns-own json own (arrived a ∷ ts) book e =
    note_turns-own json own ts (note own a.time (report json a) book)
      (note-own own a.time (report json a) book e)
note_turns-own json own (asked now ∷ ts) book e = note_turns-own json own ts book e

-- A service never finds itself.
find_peer-own :
    (json : Json PeerInfo) (start now : ℕ) (ts : List Turn) (service : DiscoveryService)
    → service.peers ≡ []
    → InOrder start ts now
    → (find_peer now (our_identity service) (take_turns json ts service)).1 ≡ none
find_peer-own json start now ts service fresh o =
    let own = our_identity service in
    find_peer-book json start now ts service own fresh o
    ∙ ap (λ e. Option.map (λ x. x.0) (kept (is_live now) e))
        (note_turns-own json own ts empty_book refl)
