-- ===== src/Handshake/Truncated.antt =====
-- The hello decoders on input that is cut short.
use aether_protocol.Prelude.{
  ℕ, zero, suc, ◌+◌, ◌<◌, ◌≤◌, ◌≡◌, refl, arith, Bool-cases, inl, inr, some, Option-cases, List, [],
  ◌∷◌, ge→ltb, leb, leb→le, length, get_elem?,
}
use aether_protocol.Errors.{Result, ok, err, panic, diverged, ◌>>=◌, index, slice}
use aether_protocol.Framing.Header.{be_at, indices}
use aether_protocol.Handshake.Capabilities.{decode_capabilities}
use aether_protocol.Handshake.Hello.{decode_client_hello, decode_server_hello}

-- The call returned a value with the property or panicked; it made no error.
abbrev pub OrPanics {ℓ} : {A : Type ℓ} → (A → Type 0) → Result A → Type 0
OrPanics P (ok a) = P a
OrPanics P (err e) = ⊥
OrPanics P panic = Unit {0}
OrPanics P diverged = ⊥

bind-OrPanics {ℓ κ} :
    {A : Type ℓ} {B : Type κ} (Q : A → Type 0) (P : B → Type 0) (r : Result A) (f : A → Result B)
    → OrPanics Q r
    → ((a : A) → Q a → OrPanics P (f a))
    → OrPanics P (r >>= f)
bind-OrPanics Q P (ok a) f h k = k a h
bind-OrPanics Q P (err e) f h k = absurd h
bind-OrPanics Q P panic f h k = tt
bind-OrPanics Q P diverged f h k = absurd h

module _ {ℓ} {A : Type ℓ} where
  get_elem?-lt : (xs : List A) (i : ℕ) (x : A) → get_elem? xs i ≡ some x → i < length xs
  get_elem?-lt [] i x e = cc
  get_elem?-lt (y ∷ xs) zero x e = omega arith
  get_elem?-lt (y ∷ xs) (suc i) x e = omega (arith, get_elem?-lt xs i x e)

  index-OrPanics : (xs : List A) (i : ℕ) → OrPanics (λ a. i < length xs) (index xs i)
  index-OrPanics xs i = elim (Option-cases (get_elem? xs i)) [
    | inl e ↦ rw e tt
    | inr (x, e) ↦ rw e (get_elem?-lt xs i x e)
  ]

  slice-OrPanics : (xs : List A) (from to : ℕ) → OrPanics (λ a. to ≤ length xs) (slice xs from to)
  slice-OrPanics xs from to = elim (Bool-cases (leb from to)) [
    | inl e ↦ elim (Bool-cases (leb to (length xs))) [
      | inl h ↦ rw (e, h) (leb→le to (length xs) h)
      | inr h ↦ rw (e, h) tt
    ]
    | inr e ↦ rw e tt
  ]

-- A list of one element and more.
indices-OrPanics :
    (w at : ℕ) (bytes : List ℕ)
    → OrPanics (λ a. at + suc w ≤ length bytes) (indices (suc w) bytes at)
indices-OrPanics zero at bytes =
    bind-OrPanics _ _ (index bytes at) _ (index-OrPanics bytes at) (λ b h. omega arith)
indices-OrPanics (suc w) at bytes =
    bind-OrPanics _ _ (index bytes at) _ (index-OrPanics bytes at) (λ b h.
      bind-OrPanics _ _ (indices (suc w) bytes (at + 1)) _ (indices-OrPanics w (at + 1) bytes)
        (λ bs g. omega arith))

be_at-OrPanics :
    (w at : ℕ) (bytes : List ℕ) → OrPanics (λ n. at + suc w ≤ length bytes) (be_at (suc w) bytes at)
be_at-OrPanics w at bytes =
    bind-OrPanics _ _ (indices (suc w) bytes at) _ (indices-OrPanics w at bytes) (λ bs h. h)

decode_capabilities-OrPanics :
    (bytes : List ℕ) (at : ℕ)
    → OrPanics (λ c. at + 22 ≤ length bytes) (decode_capabilities bytes at)
unfolding decode_capabilities
decode_capabilities-OrPanics bytes at =
    bind-OrPanics _ _ (index bytes at) _ (index-OrPanics bytes at) (λ b h0.
      bind-OrPanics _ _ (be_at 4 bytes (at + 1)) _ (be_at-OrPanics 3 (at + 1) bytes) (λ m h1.
        bind-OrPanics _ _ (be_at 8 bytes (at + 5)) _ (be_at-OrPanics 7 (at + 5) bytes) (λ d h2.
          bind-OrPanics _ _ (index bytes (at + 13)) _ (index-OrPanics bytes (at + 13)) (λ f h3.
            bind-OrPanics _ _ (be_at 8 bytes (at + 14)) _ (be_at-OrPanics 7 (at + 14) bytes)
              (λ i h4. omega arith)))))

-- The server hello's decoder makes no error of its own: it returns a hello, for which it read at
-- least 137 bytes, or panics.
decode_server_hello-OrPanics :
    (bytes : List ℕ) → OrPanics (λ h. 137 ≤ length bytes) (decode_server_hello bytes)
unfolding decode_server_hello
decode_server_hello-OrPanics bytes =
    bind-OrPanics _ _ (index bytes 0) _ (index-OrPanics bytes 0) (λ v h0.
      bind-OrPanics _ _ (be_at 8 bytes 1) _ (be_at-OrPanics 7 1 bytes) (λ source h1.
        bind-OrPanics _ _ (be_at 8 bytes 9) _ (be_at-OrPanics 7 9 bytes) (λ dest h2.
          bind-OrPanics _ _ (slice bytes 17 49) _ (slice-OrPanics bytes 17 49) (λ x h3.
            bind-OrPanics _ _ (slice bytes 49 81) _ (slice-OrPanics bytes 49 81) (λ identity h4.
              bind-OrPanics _ _ (slice bytes 81 113) _ (slice-OrPanics bytes 81 113) (λ key h5.
                bind-OrPanics _ _ (be_at 2 bytes 113) _ (be_at-OrPanics 1 113 bytes) (λ n h6.
                  bind-OrPanics _ _ (slice bytes 115 (115 + n)) _
                    (slice-OrPanics bytes 115 (115 + n))
                    (λ proof h7.
                      bind-OrPanics _ _ (decode_capabilities bytes (115 + n)) _
                        (decode_capabilities-OrPanics bytes (115 + n)) (λ c h8. omega arith)))))))))

OrPanics-panic {ℓ} :
    {A : Type ℓ} (P : A → Type 0) (r : Result A) → OrPanics P r → ((a : A) → P a → ⊥) → r ≡ panic
OrPanics-panic P (ok a) h never = absurd (never a h)
OrPanics-panic P (err e) h never = absurd h
OrPanics-panic P panic h never = refl
OrPanics-panic P diverged h never = absurd h

-- Decoding a server hello of fewer than 137 bytes panics.
decode_server_hello-panics :
    (bytes : List ℕ) → length bytes < 137 → decode_server_hello bytes ≡ panic
decode_server_hello-panics bytes short =
    OrPanics-panic _ (decode_server_hello bytes) (decode_server_hello-OrPanics bytes)
      (λ h long. omega arith)

indices-announced :
    (n count : ℕ) (bytes : List ℕ)
    → n ≡ suc count
    → OrPanics (λ a. 10 + suc count ≤ length bytes) (indices n bytes 10)
indices-announced n count bytes e = rw e (indices-OrPanics count 10 bytes)

announced_index :
    (bytes : List ℕ) (n : ℕ) → get_elem? bytes 9 ≡ some n → OrPanics (λ m. m ≡ n) (index bytes 9)
announced_index bytes n e = rw e refl

-- Decoding a client hello of 80 bytes or more panics if its count of versions, which is not zero,
-- reaches past its end.
decode_client_hello-panics :
    (bytes : List ℕ) (count : ℕ)
    → 80 ≤ length bytes
    → get_elem? bytes 9 ≡ some (suc count)
    → length bytes ≤ 10 + count
    → decode_client_hello bytes ≡ panic
unfolding decode_client_hello
decode_client_hello-panics bytes count long announced short = rw (ge→ltb (length bytes) 80 long) (
    OrPanics-panic (λ h. ⊥) _
      (bind-OrPanics _ _ (index bytes 0) _ (index-OrPanics bytes 0) (λ v h0.
        bind-OrPanics _ _ (be_at 8 bytes 1) _ (be_at-OrPanics 7 1 bytes) (λ id h1.
          bind-OrPanics _ _ (index bytes 9) _ (announced_index bytes (suc count) announced) (λ n e.
            bind-OrPanics _ _ (indices n bytes 10) _ (indices-announced n count bytes e)
              (λ versions h3. absurd (omega arith))))))
      (λ h impossible. impossible))

-- Decoding a server hello of fewer than 137 bytes panics, and so does decoding a client hello of
-- 80 bytes or more whose count of versions, which is not zero, reaches past its end.
pub decode_hello-panics :
    (server client : List ℕ) (count : ℕ)
    → length server < 137
    → 80 ≤ length client
    → get_elem? client 9 ≡ some (suc count)
    → length client ≤ 10 + count
    → (decode_server_hello server ≡ panic) × (decode_client_hello client ≡ panic)
decode_hello-panics server client count short long announced past = (
  decode_server_hello-panics server short,
  decode_client_hello-panics client count long announced past,
)
