-- ===== src/Connection/Replay.antt =====
-- The packet number of a session: every packet of one side has the same, and the other side takes a
-- packet as often as it comes.
use aether_protocol.Prelude.{ℕ, ◌≡◌, refl, sym, ap, ap₂, ◌∙◌, some, List, [], ◌∷◌, map}
use aether_protocol.Errors.{Error, Result, ok, err, panic, diverged, or_error}
use aether_protocol.Framing.Frame.{Frame, encode_frame}
use aether_protocol.Crypto.{Primitives}
use aether_protocol.Crypto.Keys.{AeadSession, tx_keys, make_nonce, encrypt}
use aether_protocol.Connection.State.{Connection, ConnectionStats, active, make_aad, is_active}
use aether_protocol.Connection.Transfer.{
  send_frame, recv_frame, seal, transmit, deliver, next_frame, read_packet,
}

-- The packets that a list of frames becomes, the socket taking every one.
unfoldable pub send_frames : Primitives → Connection → List Frame → List (Result (List ℕ))
send_frames prims conn [] = []
send_frames prims conn (frame ∷ frames) =
    let sent = send_frame prims (ok tt) conn frame in sent.1 ∷ send_frames prims sent.0 frames

-- Sending changes the statistics alone.
transmit-stats :
    (conn : Connection) (r : Result (List ℕ))
    → ((transmit conn r (ok tt)).0 ≡ record conn { stats = (transmit conn r (ok tt)).0.stats })
      × ((transmit conn r (ok tt)).1 ≡ r)
transmit-stats conn (ok packet) = (refl, refl)
transmit-stats conn (err e) = (refl, refl)
transmit-stats conn panic = (refl, refl)
transmit-stats conn diverged = (refl, refl)

-- The sealing of a side: its key, its nonce and its additional data.
abbrev pub sealing : Primitives → AeadSession → Connection → Frame → Result (List ℕ)
sealing prims session conn frame =
    let keys = tx_keys session conn.is_client in
    or_error (prims.aead_encrypt keys.tx_key (make_nonce keys) (encode_frame frame) (make_aad conn))
      Error.crypto

send_frames-stats :
    (prims : Primitives) (session : AeadSession) (conn : Connection) (stats : ConnectionStats)
    (frames : List Frame)
    → conn.state ≡ active
    → conn.aead ≡ some session
    → send_frames prims (record conn { stats = stats }) frames
      ≡ map (sealing prims session conn) frames
unfolding send_frames send_frame is_active encrypt make_aad
send_frames-stats prims session conn stats [] a e = refl
send_frames-stats prims session conn stats (frame ∷ frames) a e =
    let here = record conn { stats = stats } in
    let wire = encode_frame frame in
    let sealed = seal prims here here.aead wire in
    let sent : send_frame prims (ok tt) here frame ≡ transmit here sealed (ok tt) = rw a refl in
    let (others, same) = transmit-stats here sealed in
    ap₂ ◌∷◌ (ap (λ r. r.1) sent ∙ same ∙ ap (λ s. seal prims here s wire) e) (
      ap (λ r. send_frames prims r.0 frames) sent
      ∙ ap (λ c. send_frames prims c frames) others
      ∙ send_frames-stats prims session conn (transmit here sealed (ok tt)).0.stats frames a e)

send_frames-nonce :
    (prims : Primitives) (session : AeadSession) (conn : Connection) (frames : List Frame)
    → conn.state ≡ active
    → conn.aead ≡ some session
    → send_frames prims conn frames ≡ map (sealing prims session conn) frames
send_frames-nonce prims session conn frames a e =
    send_frames-stats prims session conn conn.stats frames a e

deliver-stats :
    (conn : Connection) (r : Result (ℕ × Frame))
    → (deliver conn r).0 ≡ record conn { stats = (deliver conn r).0.stats }
deliver-stats conn (ok found) = refl
deliver-stats conn (err e) = refl
deliver-stats conn panic = refl
deliver-stats conn diverged = refl

deliver_result :
    (before after : Connection) (r : Result (ℕ × Frame))
    → (deliver before r).1 ≡ (deliver after r).1
deliver_result before after (ok found) = refl
deliver_result before after (err e) = refl
deliver_result before after panic = refl
deliver_result before after diverged = refl

recv_frame-replay :
    (prims : Primitives) (conn : Connection) (packet : List ℕ)
    → conn.incoming_frames ≡ []
    → let first = recv_frame prims (ok packet) conn in
      (recv_frame prims (ok packet) first.0).1 ≡ first.1
unfolding recv_frame make_aad
recv_frame-replay prims conn packet nothing_waits =
    let read = read_packet prims conn (ok packet) in
    let after = (deliver conn read).0 in
    let again = record conn { stats = after.stats } in
    let run : recv_frame prims (ok packet) conn ≡ deliver conn read =
      ap (next_frame prims (ok packet) conn) nothing_waits in
    let rerun : recv_frame prims (ok packet) again ≡ deliver again read =
      ap (next_frame prims (ok packet) again) nothing_waits in
    ap (λ r. (recv_frame prims (ok packet) r.0).1) run
    ∙ ap (λ c. (recv_frame prims (ok packet) c).1) (deliver-stats conn read)
    ∙ ap (λ r. r.1) rerun
    ∙ deliver_result again conn read
    ∙ sym (ap (λ r. r.1) run)

-- On an active connection with a session, on which no frame waits, and with a socket that takes
-- every packet, all frames sent one after another are sealed with one key, one nonce and one
-- additional data. A packet that is received a second time in succession gives the same result as
-- the first time.
pub packet_number-unused :
    (prims : Primitives) (session : AeadSession) (conn : Connection) (frames : List Frame)
    (packet : List ℕ)
    → conn.state ≡ active
    → conn.aead ≡ some session
    → conn.incoming_frames ≡ []
    → let first = recv_frame prims (ok packet) conn in
      (send_frames prims conn frames ≡ map (sealing prims session conn) frames)
      × ((recv_frame prims (ok packet) first.0).1 ≡ first.1)
packet_number-unused prims session conn frames packet a e nothing_waits = (
  send_frames-nonce prims session conn frames a e,
  recv_frame-replay prims conn packet nothing_waits,
)
