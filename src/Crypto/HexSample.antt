-- ===== src/Crypto/HexSample.antt =====
-- Hexadecimal digits in lower case, two for a byte, and their reading: the crate `hex` in small.
use aether_protocol.Prelude.{
  ℕ, ◌+◌, ◌*◌, ◌-◌, ◌/◌, ◌%◌, ◌<◌, ◌≡◌, inl, inr, refl, arith, Bool-cases, ◌&&◌, Option, none, some,
  List, [], ◌∷◌, length, All, ltb, leb, ltb→lt, ltb→ge, if◌then◌else◌,
}
use aether_protocol.Prelude.Bytes.{IsByte}
use aether_protocol.Crypto.Hex.{Hex, HexLawful, IsHexDigit}

abbrev digit_of : ℕ → ℕ
digit_of n = if ltb n 10 then 48 + n else 87 + n

abbrev of_digit : ℕ → Option ℕ
of_digit c =
    if leb 48 c && leb c 57
    then some (c - 48)
    else if leb 97 c && leb c 102
    then some (c - 87)
    else if leb 65 c && leb c 70
    then some (c - 55)
    else none

abbrev encode : List ℕ → List ℕ
encode [] = []
encode (b ∷ bs) = digit_of (b / 16) ∷ digit_of (b % 16) ∷ encode bs

abbrev joined : Option ℕ → Option ℕ → Option (List ℕ) → Option (List ℕ)
joined (some high) (some low) (some rest) = some ((high * 16 + low) ∷ rest)
joined (some high) (some low) none = none
joined (some high) none rest = none
joined none low rest = none

abbrev decode : List ℕ → Option (List ℕ)
decode [] = some []
decode (c ∷ []) = none
decode (c ∷ d ∷ cs) = joined (of_digit c) (of_digit d) (decode cs)

digit_round_trip : (n : ℕ) → n < 16 → of_digit (digit_of n) ≡ some n
digit_round_trip n h = ground arith

digit-IsHexDigit : (n : ℕ) → n < 16 → IsHexDigit (digit_of n)
digit-IsHexDigit n h = elim (Bool-cases (ltb n 10)) [
  | inl e ↦ let less = ltb→lt n 10 e in rw e (inl (omega arith, omega (arith, less)))
  | inr e ↦ let ge = ltb→ge n 10 e in rw e (inr (omega (arith, ge), omega arith))
]

length-encode : (bs : List ℕ) → length (encode bs) ≡ 2 * length bs
length-encode [] = refl
length-encode (b ∷ bs) = omega (arith, length-encode bs)

encode-digits : (bs : List ℕ) → All IsByte bs → All IsHexDigit (encode bs)
encode-digits [] h = tt
encode-digits (b ∷ bs) h =
    let fits = h.0 in
    (
      digit-IsHexDigit (b / 16) (omega arith),
      (digit-IsHexDigit (b % 16) (omega arith), encode-digits bs h.1),
    )

decode-encode : (bs : List ℕ) → All IsByte bs → decode (encode bs) ≡ some bs
decode-encode [] h = refl
decode-encode (b ∷ bs) h =
    let fits = h.0 in
    let whole : b / 16 * 16 + b % 16 ≡ b = omega arith in
    rw
      (
        digit_round_trip (b / 16) (omega arith),
        digit_round_trip (b % 16) (omega arith),
        decode-encode bs h.1,
        whole,
      )
      refl

abbrev pub sample_hex : Hex
sample_hex = record { hex_encode = encode; hex_decode = decode }

pub sample_hex-HexLawful : HexLawful sample_hex
sample_hex-HexLawful = record {
  length-hex_encode = length-encode;
  hex_encode-digits = encode-digits;
  hex_round_trip = decode-encode;
}
