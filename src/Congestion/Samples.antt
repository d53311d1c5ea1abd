-- ===== src/Congestion/Samples.antt =====
-- The samples of round trip times: what is kept of them and which is the least.
use aether_protocol.Prelude.{
  ℕ, ◌≤◌, ◌≡◌, ◌⊎◌, inl, inr, refl, ap, arith, Bool-cases, List, [], ◌∷◌, ◌++◌, All, ltb, ltb→lt,
  ltb→ge,
}
use aether_protocol.Congestion.Controller.{is_recent, retain_recent, least_of, window_min}

abbrev pub IsAmong : ℕ → List (ℕ × ℕ) → Type 0
IsAmong r [] = ⊥
IsAmong r (s ∷ ss) = (r ≡ s.0) ⊎ IsAmong r ss

-- The least round trip time of the samples.
pub record IsLeast (r : ℕ) (ss : List (ℕ × ℕ)) : Type 0 where
  pub among : IsAmong r ss
  pub below : All (λ s. r ≤ s.0) ss

pub retain-append :
    (now : ℕ) (xs ys : List (ℕ × ℕ))
    → retain_recent now (xs ++ ys) ≡ retain_recent now xs ++ retain_recent now ys
unfolding retain_recent
retain-append now [] ys = refl
retain-append now ((r, at) ∷ xs) ys = elim (Bool-cases (is_recent now at)) [
  | inl e ↦ rw e (ap (◌∷◌ (r, at)) (retain-append now xs ys))
  | inr e ↦ rw e (retain-append now xs ys)
]

-- What was dropped earlier would be dropped now.
pub retain-retain :
    (t now : ℕ) (xs : List (ℕ × ℕ))
    → t ≤ now
    → retain_recent now (retain_recent t xs) ≡ retain_recent now xs
unfolding retain_recent
retain-retain t now [] h = refl
retain-retain t now ((r, at) ∷ xs) h = ground (arith, retain-retain t now xs h)

IsAmong-later :
    (m r : ℕ) (s : ℕ × ℕ) (ss : List (ℕ × ℕ)) (at : ℕ)
    → IsAmong m ((r, at) ∷ ss)
    → IsAmong m ((r, at) ∷ s ∷ ss)
IsAmong-later m r s ss at (inl e) = inl e
IsAmong-later m r s ss at (inr h) = inr (inr h)

least_of-IsLeast :
    (least at : ℕ) (ss : List (ℕ × ℕ)) → IsLeast (least_of least ss) ((least, at) ∷ ss)
unfolding least_of
least_of-IsLeast least at [] = record { among = inl refl; below = (omega arith, tt) }
least_of-IsLeast least at ((r, t) ∷ ss) =
    let lower = least_of-IsLeast r t ss in
    let keep = least_of-IsLeast least at ss in
    elim (Bool-cases (ltb r least)) [
      | inl e ↦
          let less = ltb→lt r least e in
          rw e (record {
            among = inr lower.among;
            below = (omega (arith, lower.below.0), lower.below);
          })
      | inr e ↦
          let ge = ltb→ge r least e in
          rw e (record {
            among = IsAmong-later _ least (r, t) ss at keep.among;
            below = (keep.below.0, (omega (arith, keep.below.0), keep.below.1));
          })
    ]

pub window_min-IsLeast :
    (old : ℕ) (xs : List (ℕ × ℕ)) (s : ℕ × ℕ)
    → IsLeast (window_min old (xs ++ (s ∷ []))) (xs ++ (s ∷ []))
window_min-IsLeast old [] s = least_of-IsLeast s.0 s.1 []
window_min-IsLeast old (x ∷ xs) s = least_of-IsLeast x.0 x.1 (xs ++ (s ∷ []))

-- A sample is recent when it is taken.
pub recent_now : (rtt now : ℕ) → retain_recent now ((rtt, now) ∷ []) ≡ (rtt, now) ∷ []
unfolding retain_recent
recent_now rtt now = ground arith
