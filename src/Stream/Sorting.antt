-- ===== src/Stream/Sorting.antt =====
-- Sorting the fragments of a buffer: the order in which they came does not matter.
use mathlib.Core.List.{Perm, Permᴰ}
use mathlib.Core.Path.{subst}
use mathlib.Core.Logic.{∥∥₁_elim}
use aether_protocol.Prelude.{◌≡◌, ◌≢◌, refl, ◌∙◌, ap, ap₂, sym, arith, List, [], ◌∷◌, All}
use aether_protocol.Stream.State.{Fragment}
use aether_protocol.Stream.Buffer.{insert_fragment, sort_fragments}

-- No two fragments start at the same offset.
abbrev pub IsDistinct : List Fragment → Type 0
IsDistinct [] = Unit {0}
IsDistinct (f ∷ fs) = All (λ g. f.0 ≢ g.0) fs × IsDistinct fs

insert_comm :
    (f g : Fragment) (fs : List Fragment)
    → f.0 ≢ g.0
    → insert_fragment f (insert_fragment g fs) ≡ insert_fragment g (insert_fragment f fs)
unfolding insert_fragment
insert_comm f g [] h = ground arith
insert_comm f g (x ∷ fs) h = ground (arith, insert_comm f g fs h)

module _ (P : Fragment → Type 0) where
  All-perm : {xs ys : List Fragment} → Permᴰ xs ys → All P xs → All P ys
  All-perm Permᴰ.nil h = h
  All-perm (Permᴰ.cons e p) h = (subst P e h.0, All-perm p h.1)
  All-perm (Permᴰ.swap e d) h = (subst P d h.1.0, (subst P e h.0, h.1.1))
  All-perm (Permᴰ.trans p q) h = All-perm q (All-perm p h)

IsDistinct-perm : {xs ys : List Fragment} → Permᴰ xs ys → IsDistinct xs → IsDistinct ys
IsDistinct-perm Permᴰ.nil h = h
IsDistinct-perm (Permᴰ.cons {a = a} {b = b} {l₂ = l₂} e p) h = (
  subst (λ (x : Fragment). All (λ g. x.0 ≢ g.0) l₂) e (All-perm (λ g. a.0 ≢ g.0) p h.0),
  IsDistinct-perm p h.1,
)
IsDistinct-perm (Permᴰ.swap {a = a} {b = b} {a' = a'} {b' = b'} {l = l} e d) h =
    let apart : a'.0 ≢ b'.0 =
      λ q. h.0.0 (ap (λ (x : Fragment). x.0) e ∙ sym q ∙ ap (λ (x : Fragment). x.0) (sym d)) in
    (
      (apart, subst (λ (x : Fragment). All (λ g. x.0 ≢ g.0) l) d h.1.0),
      (subst (λ (x : Fragment). All (λ g. x.0 ≢ g.0) l) e h.0.1, h.1.1),
    )
IsDistinct-perm (Permᴰ.trans p q) h = IsDistinct-perm q (IsDistinct-perm p h)

sort-permᴰ :
    {xs ys : List Fragment} → Permᴰ xs ys → IsDistinct xs → sort_fragments xs ≡ sort_fragments ys
unfolding sort_fragments
sort-permᴰ Permᴰ.nil h = refl
sort-permᴰ (Permᴰ.cons e p) h = ap₂ insert_fragment e (sort-permᴰ p h.1)
sort-permᴰ (Permᴰ.swap {a = a} {b = b} {a' = a'} {b' = b'} {l = l} e d) h =
    insert_comm a b (sort_fragments l) h.0.0
    ∙ ap₂ (λ x y. insert_fragment x (insert_fragment y (sort_fragments l))) d e
sort-permᴰ (Permᴰ.trans p q) h = sort-permᴰ p h ∙ sort-permᴰ q (IsDistinct-perm p h)

fragments-set : IsSet (List Fragment)
fragments-set = hlevel

-- Buffers that hold the same fragments are sorted into the same list.
pub sort-perm :
    (xs ys : List Fragment) → Perm xs ys → IsDistinct xs → sort_fragments xs ≡ sort_fragments ys
sort-perm xs ys p h =
    ∥∥₁_elim p (fragments-set (sort_fragments xs) (sort_fragments ys)) (λ q. sort-permᴰ q h)
