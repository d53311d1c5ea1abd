-- ===== src/Prelude/Xor.antt =====
-- The laws of `^` of the source, one binary digit at a time.
use Prim.Native.Nat.{
  ℕ, zero, suc, ◌+◌, ◌*◌, ◌/◌, ◌%◌, ◌^◌, ◌≤◌, ◌<◌, bit_xor, bit_xor-bitwise, differ,
}
use mathlib.Core.Path.{◌≡◌, refl, ap, ap₂, ◌∙◌}
use mathlib.Core.Logic.{inl, inr}
use aether_protocol.Prelude.Tests.{ltb, Bool-cases, ltb→lt, ltb→ge}
use native.Mathlib.Nat.{pow-suc}
use native.Mathlib.Omega.{arith}
use aether_protocol.Prelude.Bits.{digits-suc}

differ_bits : (x y : ℕ) → x < 2 → y < 2 → differ x y ≡ (x + y) % 2
differ_bits zero y h k = omega arith
differ_bits (suc zero) zero h k = refl
differ_bits (suc zero) (suc zero) h k = refl
differ_bits (suc zero) (suc (suc y)) h k = absurd (omega arith)
differ_bits (suc (suc x)) y h k = absurd (omega arith)

digit_step : (a b : ℕ) → bit_xor a b ≡ bit_xor (a / 2) (b / 2) * 2 + differ (a % 2) (b % 2)
digit_step zero b = simp bit_xor-bitwise (omega arith)
digit_step (suc a) b = simp bit_xor-bitwise (digits-suc (λ b. b) differ a b)

pub xor_step : (a b : ℕ) → bit_xor a b ≡ bit_xor (a / 2) (b / 2) * 2 + (a + b) % 2
xor_step a b =
    omega (arith, digit_step a b, differ_bits (a % 2) (b % 2) (omega arith) (omega arith))

comm_below : (n a b : ℕ) → a + b < n → bit_xor a b ≡ bit_xor b a
comm_below zero a b h = absurd (omega arith)
comm_below (suc n) zero zero h = refl
comm_below (suc n) zero (suc b) h =
    omega (arith, xor_step 0 (suc b), xor_step (suc b) 0, comm_below n 0 (suc b / 2) (omega arith))
comm_below (suc n) (suc a) b h =
    omega (
      arith,
      xor_step (suc a) b,
      xor_step b (suc a),
      comm_below n (suc a / 2) (b / 2) (omega arith),
    )

pub xor_comm : (a b : ℕ) → bit_xor a b ≡ bit_xor b a
xor_comm a b = comm_below (suc (a + b)) a b (omega arith)

cancel_below : (n a b c : ℕ) → a + b + c < n → bit_xor a b ≡ bit_xor a c → b ≡ c
cancel_below zero a b c h e = absurd (omega arith)
cancel_below (suc n) a b c h e = elim (Bool-cases (ltb 0 (a + b + c))) [
  | inr none ↦ omega (arith, ltb→ge 0 (a + b + c) none)
  | inl some ↦
      let halves : bit_xor (a / 2) (b / 2) ≡ bit_xor (a / 2) (c / 2) =
        omega (arith, e, xor_step a b, xor_step a c) in
      omega (
        arith,
        e,
        xor_step a b,
        xor_step a c,
        cancel_below n (a / 2) (b / 2) (c / 2) (omega (arith, ltb→lt 0 (a + b + c) some)) halves,
      )
]

-- From one number, a distance leads to one other only.
pub xor_cancel : (a b c : ℕ) → bit_xor a b ≡ bit_xor a c → b ≡ c
xor_cancel a b c e = cancel_below (suc (a + b + c)) a b c (omega arith) e

self_below : (n a : ℕ) → a < n → bit_xor a a ≡ 0
self_below zero a h = absurd (omega arith)
self_below (suc n) zero h = refl
self_below (suc n) (suc a) h =
    omega (arith, xor_step (suc a) (suc a), self_below n (suc a / 2) (omega arith))

pub xor_self : (a : ℕ) → bit_xor a a ≡ 0
xor_self a = self_below (suc a) a (omega arith)

triangle_below : (n a b c : ℕ) → a + b + c < n → bit_xor a c ≤ bit_xor a b + bit_xor b c
triangle_below zero a b c h = absurd (omega arith)
triangle_below (suc n) a b c h = elim (Bool-cases (ltb 0 (a + b + c))) [
  | inr none ↦
      let at_zero = ltb→ge 0 (a + b + c) none in
      let a_zero : a ≡ 0 = omega (arith, at_zero) in
      let c_zero : c ≡ 0 = omega (arith, at_zero) in rw (a_zero, c_zero, xor_self 0) (omega arith)
  | inl some ↦ omega (
    arith,
    xor_step a b,
    xor_step b c,
    xor_step a c,
    triangle_below n (a / 2) (b / 2) (c / 2) (omega (arith, ltb→lt 0 (a + b + c) some)),
  )
]

-- The way over a third number is no shorter.
pub xor_triangle : (a b c : ℕ) → bit_xor a c ≤ bit_xor a b + bit_xor b c
xor_triangle a b c = triangle_below (suc (a + b + c)) a b c (omega arith)

-- Numbers in front of digits that fit below them.
pub xor-shift :
    (k a b p q : ℕ)
    → p < 2 ^ k
    → q < 2 ^ k
    → bit_xor (a * 2 ^ k + p) (b * 2 ^ k + q) ≡ bit_xor a b * 2 ^ k + bit_xor p q
xor-shift zero a b p q h l =
    let p_zero : p ≡ 0 = omega arith in
    let q_zero : q ≡ 0 = omega arith in
    let left : a * 2 ^ 0 + p ≡ a = omega arith in
    let right : b * 2 ^ 0 + q ≡ b = omega arith in
    let below : bit_xor p q ≡ 0 = ap₂ bit_xor p_zero q_zero in
    ap₂ bit_xor left right ∙ omega (arith, below)
xor-shift (suc k) a b p q h l =
    let p_half : p / 2 < 2 ^ k = omega (arith, pow-suc 2 k) in
    let q_half : q / 2 < 2 ^ k = omega (arith, pow-suc 2 k) in
    ground (
      arith,
      xor_step (a * 2 ^ suc k + p) (b * 2 ^ suc k + q),
      xor_step p q,
      ap (λ (t : ℕ). a * t) (pow-suc 2 k),
      ap (λ (t : ℕ). b * t) (pow-suc 2 k),
      ap (λ (t : ℕ). bit_xor a b * t) (pow-suc 2 k),
      xor-shift k a b (p / 2) (q / 2) p_half q_half,
    )
