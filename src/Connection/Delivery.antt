-- ===== src/Connection/Delivery.antt =====
-- What becomes of a packet that one side of a session sends and the other receives.
use aether_protocol.Prelude.{
  ℕ, zero, suc, ◌+◌, ◌^◌, ◌<◌, ◌≤◌, ◌≡◌, ◌≢◌, refl, sym, ap, ◌∙◌, arith, Bool, true, false, not,
  Option, none, some, List, [], ◌∷◌, length, take,
}
use aether_protocol.Prelude.Bytes.{from_be, from_be-to_be}
use aether_protocol.Errors.{Error, Result, ok, err, ◌>>=◌, or_error}
use aether_protocol.Framing.Frame.{Frame, encode_frame, decode_frame}
use aether_protocol.Crypto.{Primitives, Lawful, Authentic}
use aether_protocol.Crypto.Keys.{
  AeadSession, DirectionalKeys, tx_keys, rx_keys, make_nonce, encrypt, decrypt,
}
use aether_protocol.Connection.State.{Connection, active, make_aad, is_active}
use aether_protocol.Connection.Transfer.{send_frame, recv_frame, seal, unseal, deliver, next_frame}

-- Two sides of one session: the sender is active, and no frame waits at the receiver.
pub record Paired (sender receiver : Connection) : Type 0 where
  pub session : AeadSession
  pub sender_session : sender.aead ≡ some session
  pub receiver_session : receiver.aead ≡ some session
  pub opposite : receiver.is_client ≡ not sender.is_client
  pub sender_active : sender.state ≡ active
  pub nothing_waits : receiver.incoming_frames ≡ []

-- The keys by which one side sends are those by which the other receives.
rx_keys-not : (s : AeadSession) (b : Bool) → rx_keys s (not b) ≡ tx_keys s b
unfolding rx_keys tx_keys
rx_keys-not s true = refl
rx_keys-not s false = refl

or_error-ok {ℓ} : {A : Type ℓ} (o : Option A) (e : Error) (a : A) → or_error o e ≡ ok a → o ≡ some a
or_error-ok none e a h = cc
or_error-ok (some x) e a h = cc

take_all : (xs : List ℕ) (n : ℕ) → length xs ≤ n → take n xs ≡ xs
take_all [] zero h = refl
take_all [] (suc n) h = refl
take_all (x ∷ xs) zero h = absurd (omega arith)
take_all (x ∷ xs) (suc n) h = ap (◌∷◌ x) (take_all xs n (omega arith))

length-make_aad : (conn : Connection) → length (make_aad conn) ≡ 12
unfolding make_aad
length-make_aad conn = refl

-- Additional data tells the connection ids apart.
make_aad-ne :
    (sender receiver : Connection)
    → sender.our_connection_id < 2 ^ 32
    → receiver.our_connection_id < 2 ^ 32
    → sender.our_connection_id ≢ receiver.our_connection_id
    → make_aad sender ≢ make_aad receiver
unfolding make_aad
make_aad-ne sender receiver s r ne e = ne (
    sym (from_be-to_be 4 sender.our_connection_id s)
    ∙ ap (λ bytes. from_be (take 4 bytes)) e
    ∙ from_be-to_be 4 receiver.our_connection_id r)

module _ (prims : Primitives) (sender receiver : Connection) (frame : Frame)
    (pair : Paired sender receiver) (packet : List ℕ) where
  keys : DirectionalKeys
  keys = tx_keys pair.session sender.is_client

  sealed :
      (result : Option (List ℕ))
      → prims.aead_encrypt keys.tx_key (make_nonce keys) (encode_frame frame) (make_aad sender)
        ≡ result
      → seal prims sender sender.aead (encode_frame frame) ≡ or_error result Error.crypto
  unfolding encrypt keys
  sealed result e =
      ap (λ aead. seal prims sender aead (encode_frame frame)) pair.sender_session
      ∙ ap (λ r. or_error r Error.crypto) e

  sender_is_active : is_active sender ≡ true
  unfolding is_active
  sender_is_active = rw pair.sender_active refl

  send_lem :
      (result : Option (List ℕ))
      → prims.aead_encrypt keys.tx_key (make_nonce keys) (encode_frame frame) (make_aad sender)
        ≡ result
      → (send_frame prims (ok tt) sender frame).1 ≡ or_error result Error.crypto
  unfolding send_frame
  send_lem none e = rw (sender_is_active, sealed none e) refl
  send_lem (some p) e = rw (sender_is_active, sealed (some p) e) refl

  receiver_keys : rx_keys pair.session receiver.is_client ≡ keys
  unfolding keys
  receiver_keys =
      ap (rx_keys pair.session) pair.opposite ∙ rx_keys-not pair.session sender.is_client

  unsealed :
      (result : Option (List ℕ))
      → prims.aead_decrypt keys.tx_key (make_nonce keys) packet (make_aad receiver) ≡ result
      → unseal prims receiver receiver.aead packet ≡ or_error result Error.crypto
  unfolding decrypt
  unsealed result e =
      ap (λ aead. unseal prims receiver aead packet) pair.receiver_session
      ∙ ap (λ k. decrypt prims k packet (make_aad receiver)) receiver_keys
      ∙ ap (λ r. or_error r Error.crypto) e

  recv_lem :
      length packet ≤ receiver.config.recv_buffer_size
      → recv_frame prims (ok packet) receiver
        ≡ deliver receiver (
            unseal prims receiver receiver.aead packet >>= λ decrypted.
            decode_frame decrypted >>= λ frame. ok (length packet, frame))
  unfolding recv_frame
  recv_lem fits =
      ap (next_frame prims (ok packet) receiver) pair.nothing_waits
      ∙ rw (take_all packet receiver.config.recv_buffer_size fits) refl

-- A packet that is sent is as long as the frame and the tag.
pub send_total :
    (prims : Primitives) (laws : Lawful prims) (sender receiver : Connection) (frame : Frame)
    → Paired sender receiver
    → (packet : List ℕ) × ((send_frame prims (ok tt) sender frame).1 ≡ ok packet)
      × (length packet ≡ length (encode_frame frame) + 16)
unfolding keys
send_total prims laws sender receiver frame pair =
    let k = tx_keys pair.session sender.is_client in
    let (packet, e, d, l) =
      laws.aead_round_trip k.tx_key (make_nonce k) (encode_frame frame) (make_aad sender) in
    (packet, send_lem prims sender receiver frame pair packet (some packet) e, l)

-- Two sides of a session, the sender active and no frame waiting at the receiver, have the same
-- additional data. With lawful algorithms, a frame that decodes from its encoding, and room in the
-- receiver's buffer for the encoding and the tag, sending yields a packet, and receiving this
-- packet yields the frame.
pub recv-send_frame :
    (prims : Primitives) (laws : Lawful prims) (sender receiver : Connection) (frame : Frame)
    → Paired sender receiver
    → make_aad sender ≡ make_aad receiver
    → decode_frame (encode_frame frame) ≡ ok frame
    → length (encode_frame frame) + 16 ≤ receiver.config.recv_buffer_size
    → (packet : List ℕ) × ((send_frame prims (ok tt) sender frame).1 ≡ ok packet)
      × ((recv_frame prims (ok packet) receiver).1 ≡ ok frame)
unfolding keys
recv-send_frame prims laws sender receiver frame pair same wire room =
    let k = tx_keys pair.session sender.is_client in
    let wire_bytes = encode_frame frame in
    let (packet, e, d, l) =
      laws.aead_round_trip k.tx_key (make_nonce k) wire_bytes (make_aad sender) in
    let d' : prims.aead_decrypt k.tx_key (make_nonce k) packet (make_aad receiver)
        ≡ some wire_bytes =
      ap (prims.aead_decrypt k.tx_key (make_nonce k) packet) (sym same) ∙ d in
    (
      packet,
      send_lem prims sender receiver frame pair packet (some packet) e,
      ap (λ (r : Connection × Result Frame). r.1)
            (recv_lem prims sender receiver frame pair packet (omega arith))
          ∙ rw (unsealed prims sender receiver frame pair packet (some wire_bytes) d', wire) refl,
    )

-- For an authentic seal and two sides of a session, the sender active and no frame waiting at the
-- receiver, whose connection ids are of 32 bits and differ: every packet that the sender makes, if
-- the buffer has room for it, is refused, and the receiver is as it was.
pub recv_frame-refuses :
    (prims : Primitives) (seals : Authentic prims) (sender receiver : Connection) (frame : Frame)
    (packet : List ℕ)
    → Paired sender receiver
    → sender.our_connection_id < 2 ^ 32
    → receiver.our_connection_id < 2 ^ 32
    → sender.our_connection_id ≢ receiver.our_connection_id
    → (send_frame prims (ok tt) sender frame).1 ≡ ok packet
    → length packet ≤ receiver.config.recv_buffer_size
    → recv_frame prims (ok packet) receiver ≡ (receiver, err Error.crypto)
unfolding keys
recv_frame-refuses prims seals sender receiver frame packet pair s r ne sent room =
    let k = tx_keys pair.session sender.is_client in
    let seal_result =
      prims.aead_encrypt k.tx_key (make_nonce k) (encode_frame frame) (make_aad sender) in
    let e : seal_result ≡ some packet =
      or_error-ok seal_result Error.crypto packet
        (sym (send_lem prims sender receiver frame pair packet seal_result refl) ∙ sent) in
    let d =
      seals.refuses k.tx_key (make_nonce k) (encode_frame frame) packet (make_aad sender)
        (make_aad receiver) e (length-make_aad sender) (length-make_aad receiver)
        (make_aad-ne sender receiver s r ne) in
    recv_lem prims sender receiver frame pair packet room
    ∙ rw (unsealed prims sender receiver frame pair packet none d) refl
