-- ===== src/Crypto/Sample.antt =====
-- Small stand-ins for the algorithms, which keep the laws, for runs at concrete inputs.
use aether_protocol.Prelude.{
  take, drop, ◌≤◌, ◌++◌, length-take, length-append, take-length-append, drop-length-append, sym,
  ◌∙◌, if◌then◌else◌, Bool-cases, inl, inr, ◌≢◌, ℕ, zero, suc, ◌+◌, ◌≡◌, refl, ap, arith, true,
  Option, none, some, List, [], ◌∷◌, ==_refl, ◌==◌, length,
}
use aether_protocol.Crypto.{
  Primitives, Lawful, Authentic, equal_bytes, equal_bytes_refl, equal_bytes-eq,
}

abbrev pub repeat : ℕ → ℕ → List ℕ
repeat zero b = []
repeat (suc n) b = b ∷ repeat n b

pub length-repeat : (n b : ℕ) → length (repeat n b) ≡ n
length-repeat zero b = refl
length-repeat (suc n) b = ap suc (length-repeat n b)

abbrev pub first : List ℕ → ℕ
first [] = 0
first (b ∷ bs) = b

-- The additional data, filled up to the 16 bytes of a tag.
abbrev pub tag : List ℕ → List ℕ
tag aad = take 16 (aad ++ repeat 16 0)

abbrev pub unseal : List ℕ → List ℕ → Option (List ℕ)
unseal sealed aad = if equal_bytes (take 16 sealed) (tag aad) then some (drop 16 sealed) else none

length-tag : (aad : List ℕ) → length (tag aad) ≡ 16
length-tag aad = omega (
  arith,
  length-take 16 (aad ++ repeat 16 0),
  length-append aad (repeat 16 0),
  length-repeat 16 0,
)

take-tag : (aad text : List ℕ) → take 16 (tag aad ++ text) ≡ tag aad
take-tag aad text =
    ap (λ n. take n (tag aad ++ text)) (sym (length-tag aad)) ∙ take-length-append (tag aad) text

drop-tag : (aad text : List ℕ) → drop 16 (tag aad ++ text) ≡ text
drop-tag aad text =
    ap (λ n. drop n (tag aad ++ text)) (sym (length-tag aad)) ∙ drop-length-append (tag aad) text

unseal-tag : (aad text : List ℕ) → unseal (tag aad ++ text) aad ≡ some text
unseal-tag aad text =
    rw (take-tag aad text, equal_bytes_refl (tag aad)) (ap some (drop-tag aad text))

-- A secret is its length, and a key of 32 bytes repeats the number that it stands for.
abbrev pub toy : Primitives
toy = record {
  hkdf_expand = λ salt secret info n. some (repeat n (length info));
  hmac_sha256 = λ key bytes. repeat 32 (first key + length bytes);
  sha256 = λ bytes. repeat 32 (length bytes);
  aead_encrypt = λ key nonce text aad. some (tag aad ++ text);
  aead_decrypt = λ key nonce sealed aad. unseal sealed aad;
  x25519_public = λ secret. repeat 32 (length secret);
  diffie_hellman = λ secret public. repeat 32 (length secret + first public);
  ed25519_public = λ seed. repeat 32 (length seed);
  ed25519_is_key = λ key. true;
  ed25519_sign = λ seed bytes. repeat 64 (length seed);
  ed25519_verify = λ key bytes signature. first key == first signature;
}

pub toy-Lawful : Lawful toy
toy-Lawful = record {
  diffie_hellman_comm = λ s t. ap (repeat 32) (omega arith);
  hkdf_total =
      λ salt secret info n h. (repeat n (length info), refl, length-repeat n (length info));
  length-x25519_public = λ s. refl;
  length-sha256 = λ bs. refl;
  length-hmac_sha256 = λ k bs. refl;
  length-ed25519_public = λ s. refl;
  length-ed25519_sign = λ s bs. refl;
  aead_round_trip = λ key nonce text aad. (
    tag aad ++ text,
    refl,
    unseal-tag aad text,
    omega (arith, length-append (tag aad) text, length-tag aad),
  );
  own_key = λ s. refl;
  own_signature = λ s bs. ==_refl (length s);
}

take-take : (m k : ℕ) (xs : List ℕ) → m ≤ k → take m (take k xs) ≡ take m xs
take-take zero k xs h = refl
take-take (suc m) zero xs h = absurd (omega arith)
take-take (suc m) (suc k) [] h = refl
take-take (suc m) (suc k) (x ∷ xs) h = ap (◌∷◌ x) (take-take m k xs (omega arith))

-- The data can be read off its tag.
take-padded : (aad : List ℕ) → length aad ≡ 12 → take 12 (tag aad) ≡ aad
take-padded aad l =
    take-take 12 16 (aad ++ repeat 16 0) (omega arith)
    ∙ ap (λ n. take n (aad ++ repeat 16 0)) (sym l)
    ∙ take-length-append aad (repeat 16 0)

tag-eq :
    (aad other : List ℕ) → length aad ≡ 12 → length other ≡ 12 → tag aad ≡ tag other → aad ≡ other
tag-eq aad other l k e = sym (take-padded aad l) ∙ ap (take 12) e ∙ take-padded other k

refuses-tag :
    (text sealed aad other : List ℕ)
    → some (tag aad ++ text) ≡ some sealed
    → length aad ≡ 12
    → length other ≡ 12
    → aad ≢ other
    → unseal sealed other ≡ none
refuses-tag text sealed aad other e l k ne =
    let same : tag aad ++ text ≡ sealed = cc in
    elim (Bool-cases (equal_bytes (take 16 sealed) (tag other))) [
      | inl x ↦ absurd (
          ne (
            tag-eq aad other l k (
              sym (take-tag aad text)
              ∙ ap (take 16) same
              ∙ equal_bytes-eq (take 16 sealed) (tag other) x)))
      | inr x ↦ rw x refl
    ]

pub toy-Authentic : Authentic toy
toy-Authentic = record {
  refuses = λ key nonce text sealed aad other e l k ne. refuses-tag text sealed aad other e l k ne;
}
