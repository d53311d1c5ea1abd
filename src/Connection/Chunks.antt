-- ===== src/Connection/Chunks.antt =====
-- `send_stream_data`: the packets that it sends carry the data, piece by piece.
use aether_protocol.Prelude.{
  ℕ, zero, suc, ◌+◌, ◌*◌, ◌%◌, ◌^◌, ◌<◌, ◌≤◌, ◌≡◌, refl, sym, ap, ◌∙◌, arith, true, Option, none,
  some, List, [], ◌∷◌, ◌++◌, length, take, drop, take-append-drop, length-take, length-drop,
}
use aether_protocol.Errors.{Error, Result, ok, ◌>>=◌, or_error}
use aether_protocol.Framing.Frame.{Frame, encode_frame, new_data}
use aether_protocol.Crypto.{Primitives, Lawful}
use aether_protocol.Crypto.Keys.{AeadSession, tx_keys, make_nonce, encrypt}
use aether_protocol.Connection.State.{Connection, make_aad, is_active}
use aether_protocol.Connection.Transfer.{
  send_frame, seal, target, chunks, chunk_frame, send_chunks, send_stream_data, max_payload_size,
  count_sent, after_chunk,
}

-- The packets are the sealed data frames of the pieces of `bytes`, in order: none of them is empty or
-- too large, and each stands at its place in the stream. `sealer` makes a packet of a frame's bytes.
abbrev pub Carries : (List ℕ → Result (List ℕ)) → ℕ → ℕ → ℕ → List (List ℕ) → List ℕ → Type 0
Carries sealer stream_id cid offset [] bytes = bytes ≡ []
Carries sealer stream_id cid offset (packet ∷ packets) bytes =
    (chunk : List ℕ) × (rest : List ℕ) × (bytes ≡ chunk ++ rest)
    × (0 < length chunk)
    × (length chunk ≤ max_payload_size)
    × (sealer (encode_frame (new_data stream_id cid offset chunk)) ≡ ok packet)
    × Carries sealer stream_id cid (offset + length chunk) packets rest

seal_total :
    (prims : Primitives) (laws : Lawful prims) (conn : Connection) (aead : Option AeadSession)
    (wire : List ℕ)
    → (packet : List ℕ) × (seal prims conn aead wire ≡ ok packet)
unfolding encrypt
seal_total prims laws conn none wire = (wire, refl)
seal_total prims laws conn (some aead) wire =
    let k = tx_keys aead conn.is_client in
    let (packet, e, d, l) = laws.aead_round_trip k.tx_key (make_nonce k) wire (make_aad conn) in
    (packet, ap (λ r. or_error r Error.crypto) e)

send_frame-sent :
    (prims : Primitives) (conn : Connection) (frame : Frame) (packet : List ℕ)
    → is_active conn ≡ true
    → seal prims conn conn.aead (encode_frame frame) ≡ ok packet
    → send_frame prims (ok tt) conn frame ≡ (count_sent conn packet, ok packet)
unfolding send_frame
send_frame-sent prims conn frame packet a e = rw (a, e) refl

chunks-nil : (fuel size : ℕ) → chunks fuel size [] ≡ []
unfolding chunks
chunks-nil zero size = refl
chunks-nil (suc fuel) size = refl

send_chunks-cons :
    (prims : Primitives) (conn conn' : Connection) (stream_id i : ℕ) (chunk packet : List ℕ)
    (others packets : List (List ℕ))
    → send_frame prims (ok tt) conn (chunk_frame conn stream_id i chunk) ≡ (conn', ok packet)
    → (send_chunks prims (ok tt) conn' stream_id (i + 1) others).1 ≡ ok packets
    → (send_chunks prims (ok tt) conn stream_id i (chunk ∷ others)).1 ≡ ok (packet ∷ packets)
unfolding send_chunks
send_chunks-cons prims conn conn' stream_id i chunk packet others packets e more =
    ap
      (λ (r : Connection × Result (List ℕ)).
        (after_chunk r (send_chunks prims (ok tt) r.0 stream_id (i + 1) others)).1)
      e
    ∙ ap (λ (r : Result (List (List ℕ))). r >>= λ ps. ok (packet ∷ ps)) more

-- The data from `offset` on, of which chunk `i` is the first; `offset` counts only if there is any.
send_chunks-Carries :
    (prims : Primitives) (laws : Lawful prims) (stream_id fuel i offset : ℕ) (conn : Connection)
    (bytes : List ℕ)
    → is_active conn ≡ true
    → length bytes ≤ fuel
    → (0 < length bytes → offset ≡ i * max_payload_size)
    → (0 < length bytes → offset + length bytes < 2 ^ 32)
    → (packets : List (List ℕ)) × ((send_chunks prims
          (ok tt)
          conn
          stream_id
          i
          (chunks fuel max_payload_size bytes)).1
        ≡ ok packets)
      × Carries (seal prims conn conn.aead) stream_id (target conn) offset packets bytes
unfolding chunks send_chunks make_aad is_active
send_chunks-Carries prims laws stream_id fuel i offset conn [] a enough start small =
    ([], rw (chunks-nil fuel max_payload_size) refl, refl)
send_chunks-Carries prims laws stream_id zero i offset conn (b ∷ bytes) a enough start small =
    absurd (omega arith)
send_chunks-Carries prims laws stream_id (suc fuel) i offset conn (b ∷ bytes) a enough start small =
    let whole = b ∷ bytes in
    let chunk = take max_payload_size whole in
    let rest = drop max_payload_size whole in
    let taken = length-take max_payload_size whole in
    let left = length-drop max_payload_size whole in
    let at_i : offset ≡ i * max_payload_size = start (omega arith) in
    let bound : offset + length whole < 2 ^ 32 = small (omega arith) in
    let place : i % 2 ^ 32 * max_payload_size % 2 ^ 32 ≡ offset = omega arith in
    let (packet, e) =
      seal_total prims laws conn conn.aead
        (encode_frame (new_data stream_id (target conn) offset chunk)) in
    let sent = send_frame-sent prims conn (chunk_frame conn stream_id i chunk) packet a (
      ap (λ o. seal prims conn conn.aead (encode_frame (new_data stream_id (target conn) o chunk)))
        place
      ∙ e) in
    let (packets, more, carries) =
      send_chunks-Carries prims laws stream_id fuel (i + 1) (offset + length chunk)
        (count_sent conn packet) rest a (omega arith) (λ h. omega arith) (λ h. omega arith) in
    (
      packet ∷ packets,
      send_chunks-cons prims conn (count_sent conn packet) stream_id i chunk packet
          (chunks fuel max_payload_size rest) packets sent more,
      (
        chunk,
        rest,
        sym (take-append-drop max_payload_size whole),
        omega arith,
        omega arith,
        e,
        carries,
      ),
    )

-- On an active connection, with lawful algorithms, a socket that takes every packet and less than
-- 2^32 bytes of data, `send_stream_data` succeeds. Its packets are the sealed data frames of
-- pieces of the data, in order from offset 0 on, none of them empty or larger than
-- `max_payload_size`, and together they are the data.
pub send_stream_data-Carries :
    (prims : Primitives) (laws : Lawful prims) (stream_id : ℕ) (conn : Connection) (bytes : List ℕ)
    → is_active conn ≡ true
    → length bytes < 2 ^ 32
    → (packets : List (List ℕ)) × ((send_stream_data prims (ok tt) conn stream_id bytes).1
        ≡ ok packets)
      × Carries (seal prims conn conn.aead) stream_id (target conn) 0 packets bytes
unfolding send_stream_data
send_stream_data-Carries prims laws stream_id conn bytes a small =
    send_chunks-Carries prims laws stream_id (length bytes) 0 0 conn bytes a (omega arith)
      (λ h. refl) (λ h. omega arith)
