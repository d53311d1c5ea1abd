-- ===== src/Table/Laws.antt =====
-- What each operation of a map does to every lookup, and to the number of entries.
use mathlib.Core.Option
use aether_protocol.Prelude.{
  ℕ, suc, ◌≤◌, ◌≡◌, refl, arith, Bool, true, false, Option, none, some, [], ◌∷◌, length, ◌==◌,
  if◌then◌else◌,
}
use aether_protocol.Table.{Table, lookup, contains, insert, remove, modify, map_values}

abbrev pub is_some {ℓ} : {A : Type ℓ} → Option A → Bool
is_some none = false
is_some (some a) = true

module _ {ℓ} {V : Type ℓ} where
  pub lookup-insert :
      (key j : ℕ) (value : V) (m : Table V)
      → lookup j (insert key value m) ≡ (if key == j then some value else lookup j m)
  unfolding insert lookup
  lookup-insert key j value [] = refl
  lookup-insert key j value ((k, old) ∷ m) = ground (arith, lookup-insert key j value m)

  pub lookup-remove :
      (k j : ℕ) (m : Table V) → lookup j (remove k m) ≡ (if k == j then none else lookup j m)
  unfolding lookup remove
  lookup-remove k j [] = ground arith
  lookup-remove k j ((i, w) ∷ m) = ground (arith, lookup-remove k j m)

  pub lookup-modify :
      (k j : ℕ) (f : V → V) (m : Table V)
      → lookup j (modify k f m) ≡ (if k == j then Option.map f (lookup j m) else lookup j m)
  unfolding lookup modify
  lookup-modify k j f [] = ground arith
  lookup-modify k j f ((i, w) ∷ m) = ground (arith, lookup-modify k j f m)

  pub contains-lookup : (k : ℕ) (m : Table V) → contains k m ≡ is_some (lookup k m)
  unfolding contains lookup
  contains-lookup k [] = refl
  contains-lookup k ((i, w) ∷ m) = ground (arith, contains-lookup k m)

  pub length-insert :
      (k : ℕ) (v : V) (m : Table V)
      → length (insert k v m) ≡ (if contains k m then length m else suc (length m))
  unfolding insert contains
  length-insert k v [] = refl
  length-insert k v ((i, w) ∷ m) = ground (arith, length-insert k v m)

  pub length-remove-le : (k : ℕ) (m : Table V) → length (remove k m) ≤ length m
  unfolding remove
  length-remove-le k [] = omega arith
  length-remove-le k ((i, w) ∷ m) = ground (arith, length-remove-le k m)

  pub length-modify : (k : ℕ) (f : V → V) (m : Table V) → length (modify k f m) ≡ length m
  unfolding modify
  length-modify k f [] = refl
  length-modify k f ((i, w) ∷ m) = ground (arith, length-modify k f m)

  pub lookup-map_values :
      (k : ℕ) (f : V → V) (m : Table V) → lookup k (map_values f m) ≡ Option.map f (lookup k m)
  unfolding lookup map_values
  lookup-map_values k f [] = refl
  lookup-map_values k f ((i, w) ∷ m) = ground (arith, lookup-map_values k f m)
