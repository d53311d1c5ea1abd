-- ===== src/Discovery/Keyed.antt =====
-- The entries of the cache stand under the identities that they name.
use aether_protocol.Prelude.{ℕ, ◌≡◌, inl, inr, refl, sym, Bool, Bool-cases, List, [], ◌∷◌, All, map}
use mathlib.Core.Option
use aether_protocol.Crypto.{equal_bytes, equal_bytes-eq}
use aether_protocol.Table.Strings.{
  StringTable, find_entry, put_entry, drop_entry, retain_entries, values,
}
use aether_protocol.Discovery.Message.{PeerInfo}
use aether_protocol.Discovery.Service.{find_info}

-- Every entry stands under the identity of its own information.
abbrev pub Keyed : StringTable (PeerInfo × ℕ) → Type 0
Keyed m = All (λ e. e.1.0.identity_hash ≡ e.0) m

pub put-Keyed :
    (info : PeerInfo) (now : ℕ) (m : StringTable (PeerInfo × ℕ))
    → Keyed m
    → Keyed (put_entry info.identity_hash (info, now) m)
unfolding put_entry
put-Keyed info now [] h = (refl, tt)
put-Keyed info now ((k, e) ∷ m) h = elim (Bool-cases (equal_bytes k info.identity_hash)) [
  | inl same ↦ rw same (sym (equal_bytes-eq k info.identity_hash same), h.1)
  | inr other ↦ rw other (h.0, put-Keyed info now m h.1)
]

pub drop-Keyed :
    (key : List ℕ) (m : StringTable (PeerInfo × ℕ)) → Keyed m → Keyed (drop_entry key m)
unfolding drop_entry
drop-Keyed key [] h = tt
drop-Keyed key ((k, e) ∷ m) h = elim (Bool-cases (equal_bytes k key)) [
  | inl same ↦ rw same (drop-Keyed key m h.1)
  | inr other ↦ rw other (h.0, drop-Keyed key m h.1)
]

pub retain-Keyed :
    (keep : PeerInfo × ℕ → Bool) (m : StringTable (PeerInfo × ℕ))
    → Keyed m
    → Keyed (retain_entries keep m)
unfolding retain_entries
retain-Keyed keep [] h = tt
retain-Keyed keep ((k, e) ∷ m) h = elim (Bool-cases (keep e)) [
  | inl same ↦ rw same (h.0, retain-Keyed keep m h.1)
  | inr other ↦ rw other (retain-Keyed keep m h.1)
]

-- The search among the values is the look up of the key.
pub find_info-values :
    (key : List ℕ) (m : StringTable (PeerInfo × ℕ))
    → Keyed m
    → find_info key (map (λ e. e.0) (values m)) ≡ Option.map (λ e. e.0) (find_entry key m)
unfolding find_info values find_entry
find_info-values key [] h = refl
find_info-values key ((k, e) ∷ m) h = rw h.0 (elim (Bool-cases (equal_bytes k key)) [
  | inl same ↦ rw same refl
  | inr other ↦ rw other (find_info-values key m h.1)
])
