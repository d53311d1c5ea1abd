-- ===== src/Crypto/Hex.antt =====
-- The crate `hex`, and what aether-core/src/identity.rs writes with it. A string is its bytes.
use aether_protocol.Prelude.{ℕ, ◌*◌, ◌≤◌, ◌≡◌, ◌⊎◌, Option, some, List, length, All}
use aether_protocol.Prelude.Bytes.{IsByte}
use aether_protocol.Crypto.Identity.{Identity}

pub record Hex : Type 0 where
  pub hex_encode : List ℕ → List ℕ
  pub hex_decode : List ℕ → Option (List ℕ)

-- A digit or a letter from a to f.
abbrev pub IsHexDigit : ℕ → Type 0
IsHexDigit c = ((48 ≤ c) × (c ≤ 57)) ⊎ ((97 ≤ c) × (c ≤ 102))

-- Two digits in lower case for each byte, which are read back.
pub record HexLawful (hex : Hex) : Type 0 where
  pub length-hex_encode : (bs : List ℕ) → length (hex.hex_encode bs) ≡ 2 * length bs
  pub hex_encode-digits : (bs : List ℕ) → All IsByte bs → All IsHexDigit (hex.hex_encode bs)
  pub hex_round_trip : (bs : List ℕ) → All IsByte bs → hex.hex_decode (hex.hex_encode bs) ≡ some bs

unfoldable pub hash_hex : Hex → Identity → List ℕ
hash_hex hex identity = hex.hex_encode identity.identity_hash
