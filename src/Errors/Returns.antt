-- ===== src/Errors/Returns.antt =====
-- Calls that return: the rules for `?`, for early returns, and for indices and slices in range.
use mathlib.Core.Path.{subst}
use aether_protocol.Prelude.{
  ℕ, zero, suc, ◌≤◌, ◌<◌, ◌≡◌, refl, arith, Bool, true, false, Option, none, some, List, [], ◌∷◌,
  length, le→leb, if◌then◌else◌,
}
use aether_protocol.Errors.{
  Error, Result, ok, err, panic, diverged, Ensures, Returns, ◌>>=◌, ◌>>◌, guard, or_error, index,
  slice,
}

-- A `?` of the source: what comes first returns, and what follows does what is claimed.
pub bind-Ensures {ℓ κ} :
    {A : Type ℓ} {B : Type κ} (P : B → Type 0) (m : Result A) (f : A → Result B)
    → Returns m
    → ((a : A) → m ≡ ok a → Ensures P (f a))
    → Ensures P (m >>= f)
bind-Ensures P (ok a) f r k = k a refl
bind-Ensures P (err e) f r k = tt
bind-Ensures P panic f r k = r
bind-Ensures P diverged f r k = r

-- `if !test { return Err(e) }` lets the rest run only where the test holds.
pub guard-Ensures {ℓ} :
    {A : Type ℓ} (P : A → Type 0) (b : Bool) (e : Error) (m : Result A)
    → (b ≡ true → Ensures P m)
    → Ensures P (guard b e >> m)
guard-Ensures P true e m k = k refl
guard-Ensures P false e m k = tt

-- The property of a value that was returned.
pub Ensures-ok {ℓ} :
    {A : Type ℓ} (P : A → Type 0) (m : Result A) {a : A} → Ensures P m → m ≡ ok a → P a
Ensures-ok P m r e = subst (Ensures P) e r

pub or_error-Returns {ℓ} : {A : Type ℓ} (o : Option A) (e : Error) → Returns (or_error o e)
or_error-Returns none e = tt
or_error-Returns (some a) e = tt

module _ {ℓ} {A : Type ℓ} where
  pub index-Returns : (xs : List A) (i : ℕ) → i < length xs → Returns (index xs i)
  index-Returns [] i h = absurd (omega arith)
  index-Returns (x ∷ xs) zero h = tt
  index-Returns (x ∷ xs) (suc i) h = index-Returns xs i (omega arith)

  pub slice-Returns :
      (xs : List A) (from to : ℕ) → from ≤ to → to ≤ length xs → Returns (slice xs from to)
  slice-Returns xs from to h k = rw (le→leb from to h, le→leb to (length xs) k) tt

pub if-Returns {ℓ} :
    {A : Type ℓ} (b : Bool) (m n : Result A) → Returns m → Returns n → Returns (if b then m else n)
if-Returns true m n hm hn = hm
if-Returns false m n hm hn = hn

pub Ensures-Returns {ℓ} : {A : Type ℓ} (P : A → Type 0) (m : Result A) → Ensures P m → Returns m
Ensures-Returns P (ok a) r = tt
Ensures-Returns P (err e) r = tt
Ensures-Returns P panic r = r
Ensures-Returns P diverged r = r
