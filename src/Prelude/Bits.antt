-- ===== src/Prelude/Bits.antt =====
-- `&`, `|` and `^` of the source as arithmetic. The native operations compute at numerals only;
-- here each gets one equation for its lowest digit, and from it the laws that the code relies on.
use Prim.Native.Nat.{
  ℕ, zero, suc, ◌+◌, ◌*◌, ◌/◌, ◌%◌, ◌^◌, ◌≤◌, ◌<◌, min, max, digits, bit_and, bit_or,
  bit_and-bitwise, bit_or-bitwise,
}
use mathlib.Core.Path.{◌≡◌, refl, ap}
use native.Mathlib.Omega.{arith}
use native.Mathlib.Nat.{pow-suc}

-- The recursion on digits gives the same whatever fuel it has left.
module _ (end : ℕ → ℕ) (digit : ℕ → ℕ → ℕ) where
  digits-fuel : (m n a b : ℕ) → a ≤ m → a ≤ n → digits end digit m a b ≡ digits end digit n a b
  digits-fuel zero zero a b p q = refl
  digits-fuel (suc m) zero zero b p q = refl
  digits-fuel (suc m) zero (suc a) b p q = absurd (omega arith)
  digits-fuel zero (suc n) zero b p q = refl
  digits-fuel zero (suc n) (suc a) b p q = absurd (omega arith)
  digits-fuel (suc m) (suc n) zero b p q = refl
  digits-fuel (suc m) (suc n) (suc a) b p q =
      ap (λ (t : ℕ). t * 2 + digit (suc a % 2) (b % 2))
        (digits-fuel m n (suc a / 2) (b / 2) (omega arith) (omega arith))

  pub digits-suc :
      (a b : ℕ)
      → digits end digit (suc a) (suc a) b
        ≡ digits end digit (suc a / 2) (suc a / 2) (b / 2) * 2 + digit (suc a % 2) (b % 2)
  digits-suc a b =
      ap (λ (t : ℕ). t * 2 + digit (suc a % 2) (b % 2))
        (digits-fuel a (suc a / 2) (suc a / 2) (b / 2) (omega arith) (omega arith))

pub and_step : (a b : ℕ) → bit_and a b ≡ bit_and (a / 2) (b / 2) * 2 + min (a % 2) (b % 2)
and_step zero b = simp bit_and-bitwise (omega arith)
and_step (suc a) b = simp bit_and-bitwise (digits-suc (λ b. 0) min a b)

pub or_step : (a b : ℕ) → bit_or a b ≡ bit_or (a / 2) (b / 2) * 2 + max (a % 2) (b % 2)
or_step zero b = simp bit_or-bitwise (omega arith)
or_step (suc a) b = simp bit_or-bitwise (digits-suc (λ b. b) max a b)

and-zero_below : (n a : ℕ) → a < n → bit_and a 0 ≡ 0
and-zero_below zero a h = absurd (omega arith)
and-zero_below (suc n) zero h = refl
and-zero_below (suc n) (suc a) h =
    omega (arith, and_step (suc a) 0, and-zero_below n (suc a / 2) (omega arith))

pub and-zero : (a : ℕ) → bit_and a 0 ≡ 0
and-zero a = and-zero_below (suc a) a (omega arith)

or-zero_below : (n a : ℕ) → a < n → bit_or a 0 ≡ a
or-zero_below zero a h = absurd (omega arith)
or-zero_below (suc n) zero h = refl
or-zero_below (suc n) (suc a) h =
    omega (arith, or_step (suc a) 0, or-zero_below n (suc a / 2) (omega arith))

pub or-zero : (a : ℕ) → bit_or a 0 ≡ a
or-zero a = or-zero_below (suc a) a (omega arith)

-- A value shifted over `k` free bits, joined with one that fits them.
pub or-shift : (k a b : ℕ) → b < 2 ^ k → bit_or (a * 2 ^ k) b ≡ a * 2 ^ k + b
or-shift zero a b h = ground (arith, or-zero a)
or-shift (suc k) a b h = ground (
  arith,
  or_step (a * 2 ^ suc k) b,
  ap (λ (t : ℕ). a * t) (pow-suc 2 k),
  or-shift k a (b / 2) (omega (arith, pow-suc 2 k)),
)

-- The masks of the source, one digit at a time.
pub and_one : (a : ℕ) → bit_and a 0x01 ≡ a % 2
and_one a = omega (arith, and_step a 1, and-zero (a / 2))

pub and_three : (a : ℕ) → bit_and a 0x03 ≡ a % 4
and_three a = omega (arith, and_step a 3, and_one (a / 2))

pub and_fifteen : (a : ℕ) → bit_and a 0x0f ≡ a % 16
and_fifteen a = omega (arith, and_step a 15, and_step (a / 2) 7, and_three (a / 2 / 2))

pub and_63 : (a : ℕ) → bit_and a 0x3f ≡ a % 64
and_63 a = omega (arith, and_step a 63, and_step (a / 2) 31, and_fifteen (a / 2 / 2))

-- One bit of a mask.
pub and_16 : (a : ℕ) → bit_and a 0x10 ≡ a / 16 % 2 * 16
and_16 a = omega (
  arith,
  and_step a 16,
  and_step (a / 2) 8,
  and_step (a / 2 / 2) 4,
  and_step (a / 2 / 2 / 2) 2,
  and_one (a / 2 / 2 / 2 / 2),
)

pub and_32 : (a : ℕ) → bit_and a 0x20 ≡ a / 32 % 2 * 32
and_32 a = omega (arith, and_step a 32, and_16 (a / 2))

-- `or-shift` for a value known to end in `k` zero bits.
pub or_fields : (k a n b : ℕ) → n ≡ a * 2 ^ k → b < 2 ^ k → bit_or n b ≡ n + b
or_fields k a n b e h = rw e (or-shift k a b h)
