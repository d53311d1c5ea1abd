-- ===== src/Table/Strings.antt =====
-- `HashMap` with strings for keys, a string being its bytes: the operations that the source calls.
use aether_protocol.Prelude.{
  ap, ℕ, ◌≡◌, inl, inr, refl, sym, ◌∙◌, arith, Bool, Bool-cases, Option, none, some, List, [], ◌∷◌,
  if◌then◌else◌,
}
use aether_protocol.Crypto.{equal_bytes, equal_bytes_comm, equal_bytes-eq}

abbrev pub StringTable {ℓ} : Type ℓ → Type ℓ
StringTable V = List (List ℕ × V)

module _ {ℓ} {V : Type ℓ} where
  -- `get`.
  unfoldable pub find_entry : List ℕ → StringTable V → Option V
  find_entry key [] = none
  find_entry key ((k, value) ∷ rest) = if equal_bytes k key then some value else find_entry key rest

  -- `insert`.
  unfoldable pub put_entry : List ℕ → V → StringTable V → StringTable V
  put_entry key value [] = (key, value) ∷ []
  put_entry key value ((k, old) ∷ rest) =
      let others = put_entry key value rest in
      if equal_bytes k key then (k, value) ∷ rest else (k, old) ∷ others

  -- `remove`.
  unfoldable pub drop_entry : List ℕ → StringTable V → StringTable V
  drop_entry key [] = []
  drop_entry key ((k, value) ∷ rest) =
      let others = drop_entry key rest in if equal_bytes k key then others else (k, value) ∷ others

  -- `retain`, by the value.
  unfoldable pub retain_entries : (V → Bool) → StringTable V → StringTable V
  retain_entries keep [] = []
  retain_entries keep ((k, value) ∷ rest) =
      let others = retain_entries keep rest in if keep value then (k, value) ∷ others else others

  -- `values`.
  unfoldable pub values : StringTable V → List V
  values [] = []
  values ((k, value) ∷ rest) = value ∷ values rest

  -- No key stands in the table twice.
  abbrev pub Distinct : StringTable V → Type ℓ
  Distinct [] = Unit {ℓ}
  Distinct ((k, value) ∷ rest) = (find_entry k rest ≡ none) × Distinct rest

  pub find-put :
      (key j : List ℕ) (v : V) (m : StringTable V)
      → find_entry j (put_entry key v m) ≡ (if equal_bytes key j then some v else find_entry j m)
  unfolding find_entry put_entry
  find-put key j v [] = refl
  find-put key j v ((k, old) ∷ rest) = elim (Bool-cases (equal_bytes k key)) [
    | inl e ↦ rw (e, equal_bytes-eq k key e) (ground arith)
    | inr e ↦ rw e (elim (Bool-cases (equal_bytes k j)) [
      | inl f ↦ rw (f, sym (equal_bytes-eq k j f), equal_bytes_comm key k ∙ e) refl
      | inr f ↦ rw f (find-put key j v rest)
    ])
  ]

  pub find-drop :
      (key j : List ℕ) (m : StringTable V)
      → find_entry j (drop_entry key m) ≡ (if equal_bytes key j then none else find_entry j m)
  unfolding find_entry drop_entry
  find-drop key j [] = ground arith
  find-drop key j ((k, value) ∷ rest) = elim (Bool-cases (equal_bytes k key)) [
    | inl e ↦ rw (e, find-drop key j rest, equal_bytes-eq k key e) (ground arith)
    | inr e ↦ rw e (elim (Bool-cases (equal_bytes k j)) [
      | inl f ↦ rw (f, sym (equal_bytes-eq k j f), equal_bytes_comm key k ∙ e) refl
      | inr f ↦ rw f (find-drop key j rest)
    ])
  ]

  abbrev pub kept : (V → Bool) → Option V → Option V
  kept keep none = none
  kept keep (some v) = if keep v then some v else none

  pub find-retain :
      (keep : V → Bool) (j : List ℕ) (m : StringTable V)
      → Distinct m
      → find_entry j (retain_entries keep m) ≡ kept keep (find_entry j m)
  unfolding find_entry retain_entries
  find-retain keep j [] d = refl
  find-retain keep j ((k, value) ∷ rest) d = elim (Bool-cases (equal_bytes k j)) [
    | inl e ↦
        let none_left = ap (λ key. find_entry key rest) (sym (equal_bytes-eq k j e)) ∙ d.0 in
        ground (arith, e, none_left, find-retain keep j rest d.1)
    | inr e ↦ ground (arith, e, find-retain keep j rest d.1)
  ]

  pub put-Distinct :
      (key : List ℕ) (v : V) (m : StringTable V) → Distinct m → Distinct (put_entry key v m)
  unfolding put_entry find_entry
  put-Distinct key v [] d = (refl, tt)
  put-Distinct key v ((k, old) ∷ rest) d = elim (Bool-cases (equal_bytes k key)) [
    | inl e ↦ rw e d
    | inr e ↦ rw e (
      find-put key k v rest ∙ ground (arith, equal_bytes_comm key k, e, d.0),
      put-Distinct key v rest d.1,
    )
  ]

  pub drop-Distinct : (key : List ℕ) (m : StringTable V) → Distinct m → Distinct (drop_entry key m)
  unfolding drop_entry find_entry
  drop-Distinct key [] d = tt
  drop-Distinct key ((k, old) ∷ rest) d = elim (Bool-cases (equal_bytes k key)) [
    | inl e ↦ rw e (drop-Distinct key rest d.1)
    | inr e ↦ rw e (
      find-drop key k rest ∙ ground (arith, equal_bytes_comm key k, e, d.0),
      drop-Distinct key rest d.1,
    )
  ]

  pub retain-Distinct :
      (keep : V → Bool) (m : StringTable V) → Distinct m → Distinct (retain_entries keep m)
  unfolding retain_entries find_entry
  retain-Distinct keep [] d = tt
  retain-Distinct keep ((k, old) ∷ rest) d = elim (Bool-cases (keep old)) [
    | inl e ↦ rw e (find-retain keep k rest d.1 ∙ ap (kept keep) d.0, retain-Distinct keep rest d.1)
    | inr e ↦ rw e (retain-Distinct keep rest d.1)
  ]
