-- ===== src/Stream/Reorder.antt =====
-- A message that was cut into fragments, and `read` on a buffer that holds them in any order.
use mathlib.Core.Logic.{∥∥₁_elim}
use mathlib.Core.List.{Perm, Permᴰ}
use mathlib.Core.List.Perm
use aether_protocol.Prelude.{
  ℕ, suc, ◌+◌, ◌%◌, ◌^◌, ◌≤◌, ◌<◌, ◌≡◌, ◌≢◌, refl, ◌∙◌, ap, ap₂, sym, arith, Bool, true, false, not,
  ◌&&◌, List, [], ◌∷◌, ◌++◌, length, drop, All, leb, append_assoc, append-nil, ==_refl, leb→le,
  length-append, Bool-cases, inl, inr,
}
use aether_protocol.Errors.{ok}
use aether_protocol.Stream.State.{Stream, Fragment, can_read}
use aether_protocol.Stream.Buffer.{
  insert_fragment, sort_fragments, collect, is_empty, read_sorted, read,
}
use aether_protocol.Stream.Sorting.{IsDistinct, sort-perm}

-- The chunks of a message that starts at an offset, each at the offset where the one before ends.
abbrev pub fragments : ℕ → List (List ℕ) → List Fragment
fragments at [] = []
fragments at (c ∷ cs) = (at, c) ∷ fragments (at + length c) cs

abbrev pub message : List (List ℕ) → List ℕ
message [] = []
message (c ∷ cs) = c ++ message cs

abbrev pub message_length : List (List ℕ) → ℕ
message_length [] = 0
message_length (c ∷ cs) = length c + message_length cs

abbrev pub NonEmpty : List (List ℕ) → Type 0
NonEmpty = All (λ c. 0 < length c)

fragments-above : (k at : ℕ) (cs : List (List ℕ)) → k < at → All (λ g. k ≢ g.0) (fragments at cs)
fragments-above k at [] h = tt
fragments-above k at (c ∷ cs) h =
    ((λ e. omega arith), fragments-above k (at + length c) cs (omega arith))

fragments-IsDistinct : (at : ℕ) (cs : List (List ℕ)) → NonEmpty cs → IsDistinct (fragments at cs)
fragments-IsDistinct at [] h = tt
fragments-IsDistinct at (c ∷ cs) h = (
  fragments-above at (at + length c) cs (omega (arith, h.0)),
  fragments-IsDistinct (at + length c) cs h.1,
)

insert-first :
    (at next : ℕ) (c : List ℕ) (cs : List (List ℕ))
    → at ≤ next
    → insert_fragment (at, c) (fragments next cs) ≡ (at, c) ∷ fragments next cs
unfolding insert_fragment
insert-first at next c [] h = refl
insert-first at next c (d ∷ cs) h = ground arith

sort-fragments : (at : ℕ) (cs : List (List ℕ)) → sort_fragments (fragments at cs) ≡ fragments at cs
unfolding sort_fragments
sort-fragments at [] = refl
sort-fragments at (c ∷ cs) =
    rw (sort-fragments (at + length c) cs) (insert-first at (at + length c) c cs (omega arith))

next_offset : (at n rest : ℕ) → at + (n + rest) < 2 ^ 32 → (at + n % 2 ^ 32) % 2 ^ 32 ≡ at + n
next_offset at n rest h = omega arith

no-more :
    (cs : List (List ℕ)) (max_len n : ℕ)
    → NonEmpty cs
    → n + message_length cs ≤ max_len
    → max_len ≤ n
    → cs ≡ []
no-more [] max_len n h room full = refl
no-more (c ∷ cs) max_len n h room full = absurd (omega arith)

-- The loop over contiguous fragments gathers all of them.
collect-fragments :
    (cs : List (List ℕ)) (max_len at consumed : ℕ) (result : List ℕ)
    → NonEmpty cs
    → at + message_length cs < 2 ^ 32
    → length result + message_length cs ≤ max_len
    → collect max_len (fragments at cs) result at consumed
      ≡ (result ++ message cs, consumed + length cs)
unfolding collect
collect-fragments [] max_len at consumed result h fits room =
    rw append-nil (ap (λ n. (result, n)) (omega arith))
collect-fragments (c ∷ cs) max_len at consumed result h fits room =
    elim (Bool-cases (leb max_len (length (result ++ c)))) [
      | inl full ↦
          let last : cs ≡ [] =
            no-more cs max_len (length (result ++ c)) h.1 (omega (arith, length-append result c))
              (leb→le max_len (length (result ++ c)) full) in
          rw (==_refl at, full, last, append-nil c) refl
      | inr more ↦
          rw
            (
              ==_refl at,
              more,
              next_offset at (length c) (message_length cs) fits,
              collect-fragments cs max_len (at + length c) (consumed + 1) (result ++ c) h.1
                  (omega arith) (omega (arith, length-append result c)),
            )
            (ap₂ (λ r (n : ℕ). (r, n)) (append_assoc result c (message cs)) (omega arith))
    ]

perm-length {ℓ} : {A : Type ℓ} {xs ys : List A} → Permᴰ xs ys → length xs ≡ length ys
perm-length Permᴰ.nil = refl
perm-length (Permᴰ.cons e p) = ap suc (perm-length p)
perm-length (Permᴰ.swap e d) = refl
perm-length (Permᴰ.trans p q) = perm-length p ∙ perm-length q

drop-all {ℓ} : {A : Type ℓ} (xs : List A) → drop (length xs) xs ≡ []
drop-all [] = refl
drop-all (x ∷ xs) = drop-all xs

length-fragments : (at : ℕ) (cs : List (List ℕ)) → length (fragments at cs) ≡ length cs
length-fragments at [] = refl
length-fragments at (c ∷ cs) = ap suc (length-fragments (at + length c) cs)

read_sorted-fragments :
    (s : Stream) (max_len : ℕ) (c : List ℕ) (cs : List (List ℕ))
    → NonEmpty (c ∷ cs)
    → message_length (c ∷ cs) < 2 ^ 32
    → message_length (c ∷ cs) ≤ max_len
    → read_sorted s max_len (fragments 0 (c ∷ cs))
      ≡ (record s { receive_buffer = [] }, ok (message (c ∷ cs)))
unfolding read_sorted
read_sorted-fragments s max_len c cs h fits room =
    rw
      (
        collect-fragments (c ∷ cs) max_len 0 0 [] h (omega arith) (omega arith),
        drop_count (length cs) (fragments 0 (c ∷ cs)) (length-fragments 0 (c ∷ cs)),
      )
      refl
  where
    drop_count : (n : ℕ) (fs : List Fragment) → length fs ≡ suc n → drop (0 + suc n) fs ≡ []
    drop_count n fs e = ap (λ k. drop k fs) (omega (arith, e)) ∙ drop-all fs

Bool_set : IsSet Bool
Bool_set = hlevel

not-empty-perm :
    (xs : List Fragment) (y : Fragment) (ys : List Fragment)
    → Perm xs (y ∷ ys)
    → is_empty xs ≡ false
not-empty-perm [] y ys p =
    ∥∥₁_elim p (Bool_set true false) (λ q. absurd (omega (arith, perm-length q)))
not-empty-perm (x ∷ xs) y ys p = refl

and-false : (b : Bool) → (b && false) ≡ false
and-false true = refl
and-false false = refl

-- `read` on a buffer that is not empty, in any state of the stream.
pub read-nonempty :
    (s : Stream) (max_len : ℕ)
    → is_empty s.receive_buffer ≡ false
    → read s max_len ≡ read_sorted s max_len (sort_fragments s.receive_buffer)
unfolding read
read-nonempty s max_len e = rw (e, and-false (not (can_read s.state))) refl

-- A stream's buffer holds the fragments of a message in any order, none of them empty, less than
-- 2^32 bytes together and no more than `read` may return. Then one `read` returns the message and
-- empties the buffer, and changes nothing else.
pub read-reordered :
    (s : Stream) (max_len : ℕ) (c : List ℕ) (cs : List (List ℕ))
    → Perm s.receive_buffer (fragments 0 (c ∷ cs))
    → NonEmpty (c ∷ cs)
    → message_length (c ∷ cs) < 2 ^ 32
    → message_length (c ∷ cs) ≤ max_len
    → read s max_len ≡ (record s { receive_buffer = [] }, ok (message (c ∷ cs)))
read-reordered s max_len c cs p h fits room =
    read-nonempty s max_len (not-empty-perm s.receive_buffer (0, c) (fragments (0 + length c) cs) p)
    ∙ ap (read_sorted s max_len) (
        sym (
          sort-perm (fragments 0 (c ∷ cs)) s.receive_buffer (Perm.symm p)
            (fragments-IsDistinct 0 (c ∷ cs) h))
        ∙ sort-fragments 0 (c ∷ cs))
    ∙ read_sorted-fragments s max_len c cs h fits room
