-- ===== src/Table.antt =====
-- `HashMap` with numbers for keys, as an association list: the operations that the source calls and
-- their laws. The order of the list stands for the unspecified order of the map.
use mathlib.Core.Option
pub mod Laws
pub mod Strings
use aether_protocol.Prelude.{
  ℕ, suc, ◌+◌, ◌≤◌, ◌≡◌, ◌≢◌, refl, arith, Bool, true, false, Option, none, some, List, [], ◌∷◌,
  length, ◌==◌, if◌then◌else◌,
}

abbrev pub Table {ℓ} : Type ℓ → Type ℓ
Table V = List (ℕ × V)

module _ {ℓ} {V : Type ℓ} where
  -- `get`.
  unfoldable pub lookup : ℕ → Table V → Option V
  lookup key [] = none
  lookup key ((k, value) ∷ rest) = if k == key then some value else lookup key rest

  -- `contains_key`.
  unfoldable pub contains : ℕ → Table V → Bool
  contains k [] = false
  contains k ((j, v) ∷ m) = if j == k then true else contains k m

  unfoldable pub insert : ℕ → V → Table V → Table V
  insert key value [] = (key, value) ∷ []
  insert key value ((k, old) ∷ rest) =
      if k == key then (key, value) ∷ rest else (k, old) ∷ insert key value rest

  unfoldable pub remove : ℕ → Table V → Table V
  remove k [] = []
  remove k ((j, v) ∷ m) = let rest = remove k m in if j == k then rest else (j, v) ∷ rest

  -- A write through `get_mut`.
  unfoldable pub modify : ℕ → (V → V) → Table V → Table V
  modify k f [] = []
  modify k f ((j, v) ∷ m) = if j == k then (j, f v) ∷ m else (j, v) ∷ modify k f m

  unfoldable pub keys : Table V → List ℕ
  keys [] = []
  keys ((k, v) ∷ m) = k ∷ keys m

  -- `iter().filter(…)`.
  unfoldable pub filter_values : (V → Bool) → Table V → Table V
  filter_values p [] = []
  filter_values p ((k, v) ∷ m) = let rest = filter_values p m in if p v then (k, v) ∷ rest else rest

  -- `values_mut`.
  unfoldable pub map_values : (V → V) → Table V → Table V
  map_values f [] = []
  map_values f ((k, v) ∷ m) = (k, f v) ∷ map_values f m

  -- Every entry, by its key and value, has the property.
  abbrev pub Every {κ} : (ℕ → V → Type κ) → Table V → Type (ℓ ⊔ κ)
  Every P m = (k : ℕ) (v : V) → lookup k m ≡ some v → P k v
