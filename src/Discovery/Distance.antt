-- ===== src/Discovery/Distance.antt =====
-- The distance of keys is a metric, and its order is that of the first four bytes.
use aether_protocol.Prelude.{
  zero, suc, ℕ, ◌+◌, ◌*◌, ◌<◌, ◌≤◌, ◌≡◌, ◌↔◌, refl, sym, ap, ap₂, ◌∙◌, arith, List, [], ◌∷◌, ◌++◌,
  length, take, drop, take-append-drop, length-drop, All, bit_xor,
}
use aether_protocol.Prelude.Bytes.{IsByte, from_be, from_be_acc}
use aether_protocol.Prelude.Xor.{xor_comm, xor_self, xor_cancel, xor_triangle, xor-shift}
use aether_protocol.Discovery.Dht.{xor_distance, distance_order}

from_be_acc-xor :
    (x y : ℕ) (a b : List ℕ)
    → length a ≡ length b
    → All IsByte a
    → All IsByte b
    → from_be_acc (bit_xor x y) (xor_distance a b) ≡ bit_xor (from_be_acc x a) (from_be_acc y b)
unfolding xor_distance
from_be_acc-xor x y [] [] e h k = refl
from_be_acc-xor x y [] (b ∷ bs) e h k = absurd (omega arith)
from_be_acc-xor x y (a ∷ rest) [] e h k = absurd (omega arith)
from_be_acc-xor x y (a ∷ rest) (b ∷ bs) e h k =
    ap (λ n. from_be_acc n (xor_distance rest bs)) (sym (xor-shift 8 x y a b h.0 k.0))
    ∙ from_be_acc-xor (x * 256 + a) (y * 256 + b) rest bs (omega arith) h.1 k.1

xor_distance-from_be :
    (a b : List ℕ)
    → length a ≡ length b
    → All IsByte a
    → All IsByte b
    → from_be (xor_distance a b) ≡ bit_xor (from_be a) (from_be b)
xor_distance-from_be a b e h k =
    ap (λ n. from_be_acc n (xor_distance a b)) (sym (xor_self 0)) ∙ from_be_acc-xor 0 0 a b e h k

from_be_acc_inj :
    (x y : ℕ) (a b : List ℕ)
    → length a ≡ length b
    → All IsByte a
    → All IsByte b
    → from_be_acc x a ≡ from_be_acc y b
    → (x ≡ y) × (a ≡ b)
from_be_acc_inj x y [] [] e h k same = (same, refl)
from_be_acc_inj x y [] (b ∷ bs) e h k same = absurd (omega arith)
from_be_acc_inj x y (a ∷ rest) [] e h k same = absurd (omega arith)
from_be_acc_inj x y (a ∷ rest) (b ∷ bs) e h k same =
    let (top, others) =
      from_be_acc_inj (x * 256 + a) (y * 256 + b) rest bs (omega arith) h.1 k.1 same in
    let fits = h.0 in let fits_too = k.0 in (omega arith, ap₂ ◌∷◌ (omega arith) others)

-- The keys of the table: arrays of 32 bytes.
pub record IsKey (key : List ℕ) : Type 0 where
  pub key_length : length key ≡ 32
  pub key_bytes : All IsByte key

-- The distance as a number.
abbrev pub distance : List ℕ → List ℕ → ℕ
distance a b = from_be (xor_distance a b)

distance-xor : (a b : List ℕ) → IsKey a → IsKey b → distance a b ≡ bit_xor (from_be a) (from_be b)
distance-xor a b h k =
    xor_distance-from_be a b (h.key_length ∙ sym k.key_length) h.key_bytes k.key_bytes

key_inj : (a b : List ℕ) → IsKey a → IsKey b → from_be a ≡ from_be b → a ≡ b
key_inj a b h k e =
    (from_be_acc_inj 0 0 a b (h.key_length ∙ sym k.key_length) h.key_bytes k.key_bytes e).1

-- For keys of 32 bytes, the distance as a number is a metric: it is zero exactly between equal
-- keys, is the same both ways, and the way over a third key is no shorter. From one key, equal
-- distances lead to equal keys.
pub distance_metric :
    (a b c : List ℕ)
    → IsKey a
    → IsKey b
    → IsKey c
    → ((distance a b ≡ 0) ↔ (a ≡ b))
      × (distance a b ≡ distance b a)
      × (distance a c ≤ distance a b + distance b c)
      × ((distance a b ≡ distance a c) ↔ (b ≡ c))
distance_metric a b c h k l =
    let ab = distance-xor a b h k in
    let ac = distance-xor a c h l in
    let bc = distance-xor b c k l in
    let m = from_be a in
    (
      (
        (λ z. key_inj a b h k (sym (xor_cancel m (from_be b) m (sym ab ∙ z ∙ sym (xor_self m))))),
        (λ same. ap (distance a) (sym same) ∙ distance-xor a a h h ∙ xor_self m),
      ),
      ab ∙ xor_comm m (from_be b) ∙ sym (distance-xor b a k h),
      omega (arith, ab, ac, bc, xor_triangle m (from_be b) (from_be c)),
      (
        (λ same. key_inj b c k l (xor_cancel m (from_be b) (from_be c) (sym ab ∙ same ∙ ac))),
        (λ same. ap (distance a) same),
      ),
    )

from_be_acc-append :
    (acc : ℕ) (xs ys : List ℕ) → from_be_acc acc (xs ++ ys) ≡ from_be_acc (from_be_acc acc xs) ys
from_be_acc-append acc [] ys = refl
from_be_acc-append acc (x ∷ xs) ys = from_be_acc-append (acc * 256 + x) xs ys

from_be_acc-less :
    (x y : ℕ) (a b : List ℕ)
    → length a ≡ length b
    → All IsByte a
    → x < y
    → from_be_acc x a < from_be_acc y b
from_be_acc-less x y [] [] e h less = less
from_be_acc-less x y [] (b ∷ bs) e h less = absurd (omega arith)
from_be_acc-less x y (a ∷ rest) [] e h less = absurd (omega arith)
from_be_acc-less x y (a ∷ rest) (b ∷ bs) e h less =
    from_be_acc-less (x * 256 + a) (y * 256 + b) rest bs (omega arith) h.1 (omega (arith, h.0))

drop-All : (n : ℕ) (xs : List ℕ) → All IsByte xs → All IsByte (drop n xs)
drop-All zero xs h = h
drop-All (suc n) [] h = tt
drop-All (suc n) (x ∷ xs) h = drop-All n xs h.1

-- A smaller order is a smaller distance.
distance_order-order :
    (x y : List ℕ) → IsKey x → IsKey y → distance_order x < distance_order y → from_be x < from_be y
unfolding distance_order
distance_order-order x y h k less =
    let x_split =
      sym (from_be_acc-append 0 (take 4 x) (drop 4 x)) ∙ ap from_be (take-append-drop 4 x) in
    let y_split =
      sym (from_be_acc-append 0 (take 4 y) (drop 4 y)) ∙ ap from_be (take-append-drop 4 y) in
    let tails : length (drop 4 x) ≡ length (drop 4 y) =
      omega (arith, length-drop 4 x, length-drop 4 y, h.key_length, k.key_length) in
    omega (
      arith,
      x_split,
      y_split,
      from_be_acc-less (from_be (take 4 x)) (from_be (take 4 y)) (drop 4 x) (drop 4 y) tails
          (drop-All 4 x h.key_bytes) less,
    )
