-- ===== src/Multipath/Best.antt =====
-- `best_path`: an active path, and none of the active paths has a better score.
use aether_protocol.Prelude.{ℕ, ◌<◌, ◌≡◌, ◌⊎◌, true, Option, none, some, [], ◌∷◌, All}
use aether_protocol.Table.{Table}
use aether_protocol.Multipath.Path.{PathState, quality_score, score_le}

-- The entry is one of the list.
abbrev pub Among : ℕ × PathState → Table PathState → Type 0
Among x [] = ⊥
Among x (y ∷ ys) = (x ≡ y) ⊎ Among x ys

-- A fraction with a denominator.
abbrev IsFraction : Option (ℕ × ℕ) → Type 0
IsFraction none = Unit {0}
IsFraction (some (m, k)) = 0 < k

-- Entry `a` is at least as good as every entry of the list.
abbrev pub Beats : ℕ × PathState → Table PathState → Type 0
Beats a rest = All (λ b. score_le (quality_score a.1) (quality_score b.1) ≡ true) rest

record IsBest (best : ℕ × PathState) (rest : Table PathState) (a : ℕ × PathState) : Type 0 where
  among : Among a (best ∷ rest)
  beats : Beats a (best ∷ rest)
