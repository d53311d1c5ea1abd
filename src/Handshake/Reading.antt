-- ===== src/Handshake/Reading.antt =====
-- Reading at an offset, when it is known what stands there.
use aether_protocol.Prelude.{
  ℕ, zero, suc, ◌+◌, ◌-◌, ◌^◌, ◌<◌, ◌≤◌, ◌≡◌, refl, sym, ap, ◌∙◌, arith, List, [], ◌∷◌, ◌++◌,
  le→leb, length, get_elem?, take, drop, drop-drop, take-length-append, drop-length-append, some,
  length-append, length-drop,
}
use aether_protocol.Prelude.Bytes.{to_be, from_be-to_be, length-to_be}
use aether_protocol.Errors.{ok, index, slice}
use aether_protocol.Framing.Header.{be_at, indices}

module _ {ℓ} {A : Type ℓ} where
  get_elem?-drop :
      (at : ℕ) (xs : List A) (x : A) (rest : List A)
      → drop at xs ≡ x ∷ rest
      → get_elem? xs at ≡ some x
  get_elem?-drop zero xs x rest e = rw e refl
  get_elem?-drop (suc at) [] x rest e = cc
  get_elem?-drop (suc at) (y ∷ xs) x rest e = get_elem?-drop at xs x rest e

  pub index-at :
      (at : ℕ) (xs : List A) (x : A) (rest : List A) → drop at xs ≡ x ∷ rest → index xs at ≡ ok x
  index-at at xs x rest e = rw (get_elem?-drop at xs x rest e) refl

  -- Past a part that stands at an offset.
  pub skip :
      (at n to : ℕ) (xs part rest : List A)
      → at + n ≡ to
      → drop at xs ≡ part ++ rest
      → length part ≡ n
      → drop to xs ≡ rest
  skip at n to xs part rest t e l =
      ap (λ k. drop k xs) (sym t)
      ∙ sym (drop-drop at n xs)
      ∙ ap (drop n) e
      ∙ rw (sym l) (drop-length-append part rest)

  pub slice-at :
      (at n : ℕ) (xs part rest : List A)
      → drop at xs ≡ part ++ rest
      → length part ≡ n
      → 0 < n
      → slice xs at (at + n) ≡ ok part
  slice-at at n xs part rest e l h =
      let long : at + n ≤ length xs =
        omega (arith, length-drop at xs, ap length e, length-append part rest, l) in
      let fit : at + n - at ≡ n = omega arith in
      let cut : take (at + n - at) (drop at xs) ≡ part =
        ap (λ k. take k (drop at xs)) fit
        ∙ ap (take n) e
        ∙ rw (sym l) (take-length-append part rest) in
      rw (le→leb at (at + n) (omega arith), le→leb (at + n) (length xs) long, cut) refl

indices-at :
    (part : List ℕ) (at : ℕ) (bytes rest : List ℕ)
    → drop at bytes ≡ part ++ rest
    → indices (length part) bytes at ≡ ok part
indices-at [] at bytes rest e = refl
indices-at (b ∷ part) at bytes rest e =
    rw
      (
        index-at at bytes b (part ++ rest) e,
        indices-at part (at + 1) bytes rest
            (skip at 1 (at + 1) bytes (b ∷ []) (part ++ rest) refl e refl),
      )
      refl

pub indices-read :
    (w at : ℕ) (bytes part rest : List ℕ)
    → drop at bytes ≡ part ++ rest
    → length part ≡ w
    → indices w bytes at ≡ ok part
indices-read w at bytes part rest e l = rw (sym l) (indices-at part at bytes rest e)

pub be_at-to_be :
    (w n at : ℕ) (bytes rest : List ℕ)
    → drop at bytes ≡ to_be w n ++ rest
    → n < 256 ^ w
    → be_at w bytes at ≡ ok n
be_at-to_be w n at bytes rest e h =
    rw (indices-read w at bytes (to_be w n) rest e (length-to_be w n), from_be-to_be w n h) refl
