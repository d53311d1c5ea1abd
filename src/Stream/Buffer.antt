-- ===== src/Stream/Buffer.antt =====
-- aether-core/src/stream.rs: `Stream::read`, which puts the received fragments in order.
use aether_protocol.Prelude.{
  ℕ, ◌+◌, ◌%◌, ◌^◌, Bool, true, false, not, ◌&&◌, List, [], ◌∷◌, ◌++◌, length, drop, leb, ◌==◌,
  if◌then◌else◌,
}
use aether_protocol.Errors.{Error, Result, ok, err}
use aether_protocol.Stream.State.{Stream, Fragment, can_read}

-- `sort_by_key(|(offset, _)| *offset)`, a stable sort: equal offsets keep their order.
unfoldable pub insert_fragment : Fragment → List Fragment → List Fragment
insert_fragment f [] = f ∷ []
insert_fragment f (g ∷ fs) = if leb f.0 g.0 then f ∷ g ∷ fs else g ∷ insert_fragment f fs

unfoldable pub sort_fragments : List Fragment → List Fragment
unfolding insert_fragment
sort_fragments [] = []
sort_fragments (f ∷ fs) = insert_fragment f (sort_fragments fs)

-- The `for` loop over the sorted buffer: the bytes gathered, and how many fragments were consumed.
unfoldable pub collect : ℕ → List Fragment → List ℕ → ℕ → ℕ → List ℕ × ℕ
collect max_len [] result expected consumed = (result, consumed)
collect max_len ((offset, bytes) ∷ fs) result expected consumed =
    let result' = result ++ bytes in
    let rest =
      collect max_len fs result' ((expected + length bytes % 2 ^ 32) % 2 ^ 32) (consumed + 1) in
    if not (offset == expected)
    then (result, consumed)
    else if leb max_len (length result')
    then (result', consumed + 1)
    else rest

abbrev pub is_empty {ℓ} : {A : Type ℓ} → List A → Bool
is_empty [] = true
is_empty (x ∷ xs) = false

-- What remains of `read` once the buffer is sorted; the buffer stays sorted if nothing is read.
unfoldable pub read_sorted : Stream → ℕ → List Fragment → Stream × Result (List ℕ)
read_sorted s max_len [] = (s, ok [])
read_sorted s max_len (f ∷ fs) =
    let (result, consumed) = collect max_len (f ∷ fs) [] 0 0 in
    if not (f.0 == 0)
    then (record s { receive_buffer = f ∷ fs }, ok [])
    else (record s { receive_buffer = drop consumed (f ∷ fs) }, ok result)

unfoldable pub read : Stream → ℕ → Stream × Result (List ℕ)
read s max_len =
    if not (can_read s.state) && is_empty s.receive_buffer
    then (s, err Error.invalid_state)
    else if is_empty s.receive_buffer
    then (s, ok [])
    else read_sorted s max_len (sort_fragments s.receive_buffer)
