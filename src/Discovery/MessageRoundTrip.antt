-- ===== src/Discovery/MessageRoundTrip.antt =====
-- Discovery messages on the wire: a message is read back, and no datagram makes the reader panic.
use aether_protocol.Prelude.{
  ℕ, ◌^◌, ◌<◌, ◌≤◌, ◌≡◌, ◌⊎◌, inl, inr, refl, sym, ap, ◌∙◌, arith, Bool-cases, none, some, List, [],
  ◌∷◌, ◌++◌, length, ltb, ltb→ge, ge→ltb, drop, All, le→leb,
}
use aether_protocol.Errors.{Error, ok, Returns, or_error, index}
use aether_protocol.Errors.Returns.{bind-Ensures, guard-Ensures, index-Returns, or_error-Returns}
use aether_protocol.Crypto.{equal_bytes}
use aether_protocol.Multipath.Path.{SocketAddr}
use aether_protocol.Discovery.Message.{
  Json, PeerInfo, DiscoveryMessage, DiscoveryMessageType, announce, query, response, goodbye,
  message_type_to_u8, message_type_from_u8, encode_json, decode_json, discovery_magic,
  encode_message, decode_message,
}

-- The values that the types of the source hold; the strings are ASCII, as those that the source
-- writes are.
abbrev pub IsAscii : List ℕ → Type 0
IsAscii s = All (λ b. b < 128) s

pub record IsAddr (addr : SocketAddr) : Type 0 where
  pub ip_length : (length addr.ip ≡ 4) ⊎ (length addr.ip ≡ 16)
  pub ip_bytes : All (λ b. b < 256) addr.ip
  pub port_lt : addr.port < 2 ^ 16

pub record Fits (info : PeerInfo) : Type 0 where
  pub hash_ascii : IsAscii info.identity_hash
  pub key_ascii : IsAscii info.public_key
  pub addresses_fit : All IsAddr info.addresses
  pub connection_id_lt : info.connection_id < 2 ^ 64
  pub timestamp_lt : info.timestamp < 2 ^ 64
  pub version_lt : info.version < 256
  pub capabilities_ascii : All IsAscii info.capabilities

-- A value that fits is written, and read back from what was written.
pub record JsonLawful (json : Json PeerInfo) : Type 0 where
  pub json_round_trip :
      (info : PeerInfo)
      → Fits info
      → (bytes : List ℕ) × (json.to_vec info ≡ some bytes) × (json.from_slice bytes ≡ some info)

type_round_trip : (t : DiscoveryMessageType) → message_type_from_u8 (message_type_to_u8 t) ≡ some t
unfolding message_type_from_u8 message_type_to_u8
type_round_trip announce = refl
type_round_trip query = refl
type_round_trip response = refl
type_round_trip goodbye = refl

json_reads :
    (json : Json PeerInfo) (info : PeerInfo)
    → JsonLawful json
    → Fits info
    → decode_json json (encode_json json info) ≡ ok info
unfolding decode_json encode_json
json_reads json info lawful fits =
    let (bytes, written, read) = lawful.json_round_trip info fits in
    ap
      (λ o. or_error (json.from_slice (elim o [ none ↦ [] | some b ↦ b ])) Error.protocol_violation)
      written
    ∙ ap (λ o. or_error o Error.protocol_violation) read

json-Returns : (json : Json PeerInfo) (bytes : List ℕ) → Returns (decode_json json bytes)
unfolding decode_json
json-Returns json bytes = or_error-Returns (json.from_slice bytes) Error.protocol_violation

-- Any bytes that are read as peer information behind a header.
header_reads :
    (json : Json PeerInfo) (t : DiscoveryMessageType) (version : ℕ) (info : PeerInfo)
    (bytes : List ℕ)
    → decode_json json bytes ≡ ok info
    → decode_message json (discovery_magic ++ (message_type_to_u8 t ∷ version ∷ bytes))
      ≡ ok (record { magic = discovery_magic; msg_type = t; version = version; peer_info = info })
unfolding decode_message
header_reads json t version info bytes read =
    let whole = discovery_magic ++ (message_type_to_u8 t ∷ version ∷ bytes) in
    rw
      (
        ge→ltb (length whole) 6 (omega arith),
        le→leb 6 (length whole) (omega arith),
        type_round_trip t,
        read,
      )
      refl

-- If the JSON of peer information that fits its types can be read back, a message with the magic
-- bytes and such information is decoded from its encoding.
pub decode-encode_message :
    (json : Json PeerInfo) (msg : DiscoveryMessage)
    → JsonLawful json
    → msg.magic ≡ discovery_magic
    → Fits msg.peer_info
    → decode_message json (encode_message json msg) ≡ ok msg
unfolding encode_message
decode-encode_message json msg lawful magic fits =
    let info = encode_json json msg.peer_info in
    ap
      (λ m.
        decode_message json
          (m ++ (message_type_to_u8 msg.msg_type ∷ []) ++ (msg.version ∷ []) ++ info))
      magic
    ∙ header_reads json msg.msg_type msg.version msg.peer_info info
        (json_reads json msg.peer_info lawful fits)
    ∙ ap (λ m. ok (record msg { magic = m })) (sym magic)

-- No datagram makes the reader panic.
decode_message-Returns :
    (json : Json PeerInfo) (bytes : List ℕ) → Returns (decode_message json bytes)
unfolding decode_message
decode_message-Returns json bytes = elim (Bool-cases (ltb (length bytes) 6)) [
  | inl e ↦ rw e tt
  | inr e ↦
      let h : 6 ≤ length bytes = ltb→ge (length bytes) 6 e in
      rw (e, le→leb 6 (length bytes) h)
        (bind-Ensures _ (index bytes 0) _ (index-Returns bytes 0 (omega arith)) λ b0 _.
          bind-Ensures _ (index bytes 1) _ (index-Returns bytes 1 (omega arith)) λ b1 _.
            bind-Ensures _ (index bytes 2) _ (index-Returns bytes 2 (omega arith)) λ b2 _.
              bind-Ensures _ (index bytes 3) _ (index-Returns bytes 3 (omega arith)) λ b3 _.
                guard-Ensures _ (equal_bytes (b0 ∷ b1 ∷ b2 ∷ b3 ∷ []) discovery_magic) _ _ λ same.
                  bind-Ensures _ (index bytes 4) _ (index-Returns bytes 4 (omega arith)) λ b4 _.
                    bind-Ensures _ (or_error (message_type_from_u8 b4) _) _
                      (or_error-Returns (message_type_from_u8 b4) _)
                      λ t _.
                        bind-Ensures _ (index bytes 5) _ (index-Returns bytes 5 (omega arith))
                          λ v _.
                            bind-Ensures _ (decode_json json (drop 6 bytes)) _
                              (json-Returns json (drop 6 bytes)) λ info _. tt)
]
