-- ===== src/Framing/Fuel.antt =====
-- The loop over a chain of extensions needs no more fuel than the chain has bytes.
use aether_protocol.Prelude.{
  ℕ, zero, suc, ◌+◌, ◌-◌, ◌≤◌, ◌<◌, ◌≡◌, inl, inr, refl, ap, arith, Bool-cases, List, [], ◌∷◌, ◌++◌,
  length, drop, leb, leb→gt, le→leb, if◌then◌else◌,
}
use aether_protocol.Errors.{Result, ok, err, panic, diverged, Ensures, Returns, ◌>>=◌}
use aether_protocol.Framing.Types.{is_terminator}
use aether_protocol.Framing.Extension.{Extension, decode_extension, read_extensions}
use aether_protocol.Framing.Total.{decode_extension-Ensures, read_extensions-Returns}

abbrev next_round :
    ℕ → List ℕ → ℕ → List Extension → Result (Extension × ℕ) → Result (List Extension × ℕ)
next_round fuel bytes offset acc d = d >>= λ (ext, consumed).
    let rest = read_extensions fuel bytes (offset + consumed) (acc ++ (ext ∷ [])) in
    if is_terminator ext.ext_type then ok (acc, offset + consumed) else rest

same_round :
    (m n : ℕ) (bytes : List ℕ) (offset : ℕ) (acc : List Extension) (d : Result (Extension × ℕ))
    → Ensures (λ r. 4 ≤ r.1) d
    → ((used : ℕ) (ext : Extension)
        → 4 ≤ used
        → read_extensions m bytes (offset + used) (acc ++ (ext ∷ []))
          ≡ read_extensions n bytes (offset + used) (acc ++ (ext ∷ [])))
    → next_round m bytes offset acc d ≡ next_round n bytes offset acc d
same_round m n bytes offset acc (ok (ext, used)) progress again =
    ap (λ rest. if is_terminator ext.ext_type then ok (acc, offset + used) else rest)
      (again used ext progress)
same_round m n bytes offset acc (err e) progress again = refl
same_round m n bytes offset acc panic progress again = refl
same_round m n bytes offset acc diverged progress again = refl

read_extensions-fuel :
    (m n : ℕ) (bytes : List ℕ) (offset : ℕ) (acc : List Extension)
    → length bytes - offset < m
    → length bytes - offset < n
    → read_extensions m bytes offset acc ≡ read_extensions n bytes offset acc
unfolding read_extensions
read_extensions-fuel zero n bytes offset acc h k = absurd (omega arith)
read_extensions-fuel (suc m) zero bytes offset acc h k = absurd (omega arith)
read_extensions-fuel (suc m) (suc n) bytes offset acc h k =
    elim (Bool-cases (leb (length bytes) offset)) [
      | inl e ↦ rw e refl
      | inr e ↦
          let inside = leb→gt (length bytes) offset e in
          rw (e, le→leb offset (length bytes) (omega (arith, inside)))
            (same_round m n bytes offset acc (decode_extension (drop offset bytes))
              (decode_extension-Ensures (drop offset bytes))
              λ used ext progress.
                read_extensions-fuel m n bytes (offset + used) (acc ++ (ext ∷ []))
                  (omega (arith, inside)) (omega (arith, inside)))
    ]

-- With more fuel than there are bytes from the offset on, the loop over a chain of extensions
-- returns a chain or an error of the program, and any other such fuel gives the same.
pub read_extensions-ends :
    (m n : ℕ) (bytes : List ℕ) (offset : ℕ) (acc : List Extension)
    → length bytes - offset < m
    → length bytes - offset < n
    → Returns (read_extensions m bytes offset acc)
      × (read_extensions m bytes offset acc ≡ read_extensions n bytes offset acc)
read_extensions-ends m n bytes offset acc h k =
    (read_extensions-Returns m bytes offset acc h, read_extensions-fuel m n bytes offset acc h k)
