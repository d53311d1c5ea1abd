-- ===== src/Stream/Stalls.antt =====
-- `read` on a buffer that does not reach down to offset 0.

use aether_protocol.Prelude.{ℕ, ◌<◌, ◌≡◌, refl, ◌∙◌, ap, arith, false, List, [], ◌∷◌, All}
use aether_protocol.Errors.{Result, ok}
use aether_protocol.Stream.State.{Stream, Fragment}
use aether_protocol.Stream.Buffer.{insert_fragment, sort_fragments, is_empty, read_sorted, read}
use aether_protocol.Stream.Reorder.{read-nonempty}

-- The head of the sorted buffer is one of its fragments.
insert-above :
    (f : Fragment) (fs : List Fragment)
    → 0 < f.0
    → All (λ g. 0 < g.0) fs
    → All (λ g. 0 < g.0) (insert_fragment f fs)
unfolding insert_fragment
insert-above f [] h a = (h, tt)
insert-above f (g ∷ fs) h a = ground (arith, insert-above f fs h a.1)

sort-above : (fs : List Fragment) → All (λ g. 0 < g.0) fs → All (λ g. 0 < g.0) (sort_fragments fs)
unfolding sort_fragments
sort-above [] a = tt
sort-above (f ∷ fs) a = insert-above f (sort_fragments fs) a.0 (sort-above fs a.1)

read_sorted-above :
    (s : Stream) (max_len : ℕ) (fs : List Fragment)
    → All (λ g. 0 < g.0) fs
    → (read_sorted s max_len fs).1 ≡ ok []
unfolding read_sorted
read_sorted-above s max_len [] a = refl
read_sorted-above s max_len (f ∷ fs) a = ground arith

-- If a stream's buffer has fragments, but none at offset 0, `read` returns no bytes.
pub read_stalls :
    (s : Stream) (max_len : ℕ)
    → is_empty s.receive_buffer ≡ false
    → All (λ f. 0 < f.0) s.receive_buffer
    → (read s max_len).1 ≡ ok []
read_stalls s max_len e a =
    ap (λ (r : Stream × Result (List ℕ)). r.1) (read-nonempty s max_len e)
    ∙ read_sorted-above s max_len (sort_fragments s.receive_buffer) (sort-above s.receive_buffer a)
