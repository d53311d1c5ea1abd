-- ===== src/Prelude/Bytes.antt =====
-- `to_be_bytes` and `from_be_bytes` of the unsigned types, at every width in bytes.
use Prim.Native.Nat.{ℕ, zero, suc, ◌+◌, ◌*◌, ◌/◌, ◌%◌, ◌^◌, ◌<◌}
use mathlib.Core.Path.{◌≡◌, refl, ap, ◌∙◌}
use mathlib.Core.List.{List, [], ◌∷◌}
use native.Mathlib.Omega.{arith}
use native.Mathlib.Nat.{pow-suc, one-le-pow}
use native.Mathlib.Nat.{
  div-eq_of_lt-le, mul_comm, div-add-mod', mod-lt, one-le-pow, pow-suc, div-lt_iff_lt-mul,
}
use aether_protocol.Prelude.Lists.{length, All}

abbrev pub IsByte : ℕ → Type 0
IsByte b = b < 256

-- The `w` bytes of a number, the highest first.
abbrev pub to_be : ℕ → ℕ → List ℕ
to_be zero v = []
to_be (suc w) v = v / 256 ^ w % 256 ∷ to_be w v

abbrev pub from_be_acc : ℕ → List ℕ → ℕ
from_be_acc acc [] = acc
from_be_acc acc (b ∷ bs) = from_be_acc (acc * 256 + b) bs

abbrev pub from_be : List ℕ → ℕ
from_be bs = from_be_acc 0 bs

pub length-to_be : (w v : ℕ) → length (to_be w v) ≡ w
length-to_be zero v = refl
length-to_be (suc w) v = ap suc (length-to_be w v)

pub to_be-IsByte : (w v : ℕ) → All IsByte (to_be w v)
to_be-IsByte zero v = tt
to_be-IsByte (suc w) v = (omega arith, to_be-IsByte w v)

-- `p` stands for 256 ^ w: the digit above it.
quotient : (above v p n : ℕ) → 0 < p → v < p → n ≡ above * p + v → n / p ≡ above
quotient above v p n hp hv e =
    div-eq_of_lt-le p (omega (arith, mul_comm above p)) (omega (arith, mul_comm above p))

split_digit :
    (above v p n : ℕ) → 0 < p → n ≡ above * (256 * p) + v → n ≡ (above * 256 + v / p) * p + v % p
split_digit above v p n hp e = omega (arith, div-add-mod' v p)

-- `n` has the number `v` on its `w` lowest bytes and the number `above` over them.
from_be_acc-to_be :
    (w acc above v n : ℕ)
    → n ≡ above * 256 ^ w + v
    → v < 256 ^ w
    → from_be_acc acc (to_be w n) ≡ acc * 256 ^ w + v
from_be_acc-to_be zero acc above v n e h = omega arith
from_be_acc-to_be (suc w) acc above v n e h =
    from_be_acc-to_be w (acc * 256 + n / p % 256) (above * 256 + v / p) (v % p) n split
      (mod-lt v hp)
    ∙ omega (arith, digit, small, div-add-mod' v p, ap (λ (t : ℕ). t * p) digit_mod, pw acc)
  where
    p : ℕ
    p = 256 ^ w

    hp : 0 < p
    hp = one-le-pow w 256 (omega arith)

    pw : (k : ℕ) → k * 256 ^ suc w ≡ 256 * (k * p)
    pw k = omega (arith, ap (λ (t : ℕ). k * t) (pow-suc 256 w))

    small : v / p < 256
    small = (div-lt_iff_lt-mul hp).1 (omega (arith, pow-suc 256 w))

    split : n ≡ (above * 256 + v / p) * p + v % p
    split = split_digit above v p n hp (omega (arith, e, pw above))

    digit : n / p ≡ above * 256 + v / p
    digit = quotient (above * 256 + v / p) (v % p) p n hp (mod-lt v hp) split

    digit_mod : n / p % 256 ≡ v / p
    digit_mod = omega (arith, digit, small)

-- Writing a number that fits and reading it back.
pub from_be-to_be : (w v : ℕ) → v < 256 ^ w → from_be (to_be w v) ≡ v
from_be-to_be w v h = from_be_acc-to_be w 0 0 v v (omega arith) h ∙ omega arith

-- What is read from `w` bytes fits `w` bytes.
from_be_acc-lt :
    (acc m : ℕ) (bs : List ℕ) → All IsByte bs → acc < m → from_be_acc acc bs < m * 256 ^ length bs
from_be_acc-lt acc m [] h a = omega arith
from_be_acc-lt acc m (b ∷ bs) h a = omega (
  arith,
  from_be_acc-lt (acc * 256 + b) (m * 256) bs h.1 (omega (arith, h.0)),
  ap (λ (t : ℕ). m * t) (pow-suc 256 (length bs)),
)

pub from_be-lt : (bs : List ℕ) → All IsByte bs → from_be bs < 256 ^ length bs
from_be-lt bs h = omega (arith, from_be_acc-lt 0 1 bs h (omega arith))
