-- ===== src/Stream/EndToEnd.antt =====
-- A sender that writes a message in chunks, and a receiver that gets the fragments in any order.
use mathlib.Core.List.{Perm}
use mathlib.Core.Path.{subst}
use aether_protocol.Prelude.{
  ℕ, ◌+◌, ◌^◌, ◌≤◌, ◌<◌, ◌≡◌, refl, ◌∙◌, ap, arith, Bool, true, List, [], ◌∷◌, length,
}
use aether_protocol.Errors.{Result, ok, err, panic, diverged}
use aether_protocol.Stream.FlowControl.{new_flow_control, can_send, reserve_send}
use aether_protocol.Stream.State.{Stream, Fragment, can_write, new_stream, write}
use aether_protocol.Stream.Buffer.{read}
use aether_protocol.Stream.Reorder.{fragments, message, message_length, NonEmpty, read-reordered}

-- The sender's loop: each chunk goes out at the offset that `write` returned for it, and the loop
-- ends at the first error.
tagged : Stream × Result ℕ → List ℕ → (Stream → List Fragment) → List Fragment
tagged (s, ok offset) c rest = (offset, c) ∷ rest s
tagged (s, err e) c rest = []
tagged (s, panic) c rest = []
tagged (s, diverged) c rest = []

unfoldable pub write_all : List (List ℕ) → Stream → List Fragment
unfolding tagged
write_all [] s = []
write_all (c ∷ cs) s = tagged (write s c) c (write_all cs)

-- One write that fits the window.
write-ok :
    (s : Stream) (c : List ℕ)
    → can_write s.state ≡ true
    → s.flow_control.sent_offset + length c ≤ s.flow_control.max_offset
    → s.flow_control.sent_offset + length c < 2 ^ 32
    → let fc = s.flow_control in
      write s c ≡ (
        record s { flow_control = record fc { sent_offset = fc.sent_offset + length c } },
        ok fc.sent_offset,
      )
unfolding write can_send reserve_send
write-ok s c opened fits small = ground arith

write_all-fragments :
    (cs : List (List ℕ)) (s : Stream)
    → can_write s.state ≡ true
    → s.flow_control.sent_offset + message_length cs ≤ s.flow_control.max_offset
    → s.flow_control.sent_offset + message_length cs < 2 ^ 32
    → write_all cs s ≡ fragments s.flow_control.sent_offset cs
unfolding write_all
write_all-fragments [] s opened fits small = refl
write_all-fragments (c ∷ cs) s opened fits small =
    let fc = s.flow_control in
    let s' = record s { flow_control = record fc { sent_offset = fc.sent_offset + length c } } in
    ap (λ r. tagged r c (write_all cs)) (write-ok s c opened (omega arith) (omega arith))
    ∙ ap (λ fs. (fc.sent_offset, c) ∷ fs)
        (write_all-fragments cs s' opened (omega arith) (omega arith))

-- A new stream writes a message in pieces, none of them empty, which fit its window and are less
-- than 2^32 bytes together. If a receiver's buffer holds the fragments of these writes in whatever
-- order, and `read` is given room for the message, it returns the message.
pub write-read :
    (id window max_len : ℕ) (is_client : Bool) (c : List ℕ) (cs : List (List ℕ)) (receiver : Stream)
    → NonEmpty (c ∷ cs)
    → message_length (c ∷ cs) ≤ window
    → message_length (c ∷ cs) < 2 ^ 32
    → message_length (c ∷ cs) ≤ max_len
    → Perm receiver.receive_buffer (write_all (c ∷ cs) (new_stream id is_client window))
    → (read receiver max_len).1 ≡ ok (message (c ∷ cs))
write-read id window max_len is_client c cs receiver h fits small room p =
    ap (λ (r : Stream × Result (List ℕ)). r.1)
      (read-reordered receiver max_len c cs (subst (Perm receiver.receive_buffer) sent p) h small
        room)
  where
    sent : write_all (c ∷ cs) (new_stream id is_client window) ≡ fragments 0 (c ∷ cs)
    sent =
        unfold new_stream new_flow_control can_write in
        write_all-fragments (c ∷ cs) (new_stream id is_client window) refl (omega arith)
          (omega arith)
