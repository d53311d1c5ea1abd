-- ===== src/Errors.antt =====
-- aether-core/src/error.rs: the errors, the close codes, and `Result`. The text of a message, which
-- only a reader of a log sees, is left out of an error; its other data is kept.
pub mod Returns
use aether_protocol.Prelude.{
  ℕ, Bool, true, false, Option, none, some, List, [], ◌∷◌, ◌-◌, leb, ◌==◌, if◌then◌else◌, get_elem?,
  length, take, drop,
}

pub data CloseCode : Type 0 where
  no_error internal_error protocol_violation crypto_error flow_control_error timeout : CloseCode
  version_negotiation refused identity_rejected : CloseCode

unfoldable pub close_code_from_u8 : ℕ → Option CloseCode
close_code_from_u8 code =
    if code == 0x00
    then some no_error
    else if code == 0x01
    then some internal_error
    else if code == 0x02
    then some CloseCode.protocol_violation
    else if code == 0x03
    then some crypto_error
    else if code == 0x04
    then some flow_control_error
    else if code == 0x05
    then some CloseCode.timeout
    else if code == 0x06
    then some CloseCode.version_negotiation
    else if code == 0x07
    then some refused
    else if code == 0x08
    then some CloseCode.identity_rejected
    else none

unfoldable pub close_code_to_u8 : CloseCode → ℕ
close_code_to_u8 no_error = 0x00
close_code_to_u8 internal_error = 0x01
close_code_to_u8 CloseCode.protocol_violation = 0x02
close_code_to_u8 crypto_error = 0x03
close_code_to_u8 flow_control_error = 0x04
close_code_to_u8 CloseCode.timeout = 0x05
close_code_to_u8 CloseCode.version_negotiation = 0x06
close_code_to_u8 refused = 0x07
close_code_to_u8 CloseCode.identity_rejected = 0x08

-- `Display`: the name in capitals, as ASCII.
unfoldable pub close_code_name : CloseCode → List ℕ
close_code_name no_error = 78 ∷ 79 ∷ 95 ∷ 69 ∷ 82 ∷ 82 ∷ 79 ∷ 82 ∷ []
close_code_name internal_error =
    73 ∷ 78 ∷ 84 ∷ 69 ∷ 82 ∷ 78 ∷ 65 ∷ 76 ∷ 95 ∷ 69 ∷ 82 ∷ 82 ∷ 79 ∷ 82 ∷ []
close_code_name CloseCode.protocol_violation =
    80 ∷ 82 ∷ 79 ∷ 84 ∷ 79 ∷ 67 ∷ 79 ∷ 76 ∷ 95 ∷ 86 ∷ 73 ∷ 79 ∷ 76 ∷ 65 ∷ 84 ∷ 73 ∷ 79 ∷ 78 ∷ []
close_code_name crypto_error = 67 ∷ 82 ∷ 89 ∷ 80 ∷ 84 ∷ 79 ∷ 95 ∷ 69 ∷ 82 ∷ 82 ∷ 79 ∷ 82 ∷ []
close_code_name flow_control_error =
    70 ∷ 76 ∷ 79 ∷ 87 ∷ 95 ∷ 67 ∷ 79 ∷ 78 ∷ 84 ∷ 82 ∷ 79 ∷ 76 ∷ 95 ∷ 69 ∷ 82 ∷ 82 ∷ 79 ∷ 82 ∷ []
close_code_name CloseCode.timeout = 84 ∷ 73 ∷ 77 ∷ 69 ∷ 79 ∷ 85 ∷ 84 ∷ []
close_code_name CloseCode.version_negotiation =
    86 ∷ 69 ∷ 82 ∷ 83 ∷ 73 ∷ 79 ∷ 78 ∷ 95 ∷ 78 ∷ 69 ∷ 71 ∷ 79 ∷ 84 ∷ 73 ∷ 65 ∷ 84 ∷ 73 ∷ 79 ∷ 78
    ∷ []
close_code_name refused = 82 ∷ 69 ∷ 70 ∷ 85 ∷ 83 ∷ 69 ∷ 68 ∷ []
close_code_name CloseCode.identity_rejected =
    73 ∷ 68 ∷ 69 ∷ 78 ∷ 84 ∷ 73 ∷ 84 ∷ 89 ∷ 95 ∷ 82 ∷ 69 ∷ 74 ∷ 69 ∷ 67 ∷ 84 ∷ 69 ∷ 68 ∷ []

pub data Error : Type 0 where
  io protocol_violation crypto flow_control timeout version_negotiation : Error
  connection_closed : CloseCode → Error
  stream_closed : ℕ → Error
  identity_rejected invalid_state internal : Error
  packet_too_large : ℕ → ℕ → Error

-- `panic` is Rust's panic, as of an index out of range. `diverged` is no Rust value: a loop of the
-- model has run out of the fuel that it was given.
pub data Result {ℓ} (A : Type ℓ) : Type ℓ where
  ok : A → Result A
  err : Error → Result A
  panic : Result A
  diverged : Result A

-- The operator `?`, and a statement that is run for its errors alone.
infixl 5 ◌>>=◌ ◌>>◌
abbrev pub ◌>>=◌ {ℓ κ} : {A : Type ℓ} {B : Type κ} → Result A → (A → Result B) → Result B
panic >>= step = panic
diverged >>= step = diverged
ok value >>= step = step value
err error >>= step = err error

abbrev pub ◌>>◌ {ℓ} : {C : Type ℓ} → Result (Unit {0}) → Result C → Result C
first >> rest = first >>= λ done. rest

-- `ok_or_else`.
abbrev pub or_error {ℓ} : {A : Type ℓ} → Option A → Error → Result A
or_error none e = err e
or_error (some a) e = ok a

-- `if !test { return Err(e) }`.
abbrev pub guard : Bool → Error → Result (Unit {0})
guard false error = err error
guard true error = ok tt

-- `data[i]`, `data[from..]` and `data[from..to]`, which panic out of range.
module _ {ℓ} {A : Type ℓ} where
  abbrev pub or_panic : Option A → Result A
  or_panic none = panic
  or_panic (some a) = ok a

  abbrev pub index : List A → ℕ → Result A
  index xs i = or_panic (get_elem? xs i)

  abbrev pub slice_from : List A → ℕ → Result (List A)
  slice_from xs from = if leb from (length xs) then ok (drop from xs) else panic

  abbrev pub slice : List A → ℕ → ℕ → Result (List A)
  slice xs from to =
      if leb from to
      then (if leb to (length xs) then ok (take (to - from) (drop from xs)) else panic)
      else panic

-- The call returned a value or an error of the program, and a value has the property.
abbrev pub Ensures {ℓ} : {A : Type ℓ} → (A → Type 0) → Result A → Type 0
Ensures P (ok a) = P a
Ensures P (err e) = Unit {0}
Ensures P panic = ⊥
Ensures P diverged = ⊥

abbrev pub Returns {ℓ} : {A : Type ℓ} → Result A → Type 0
Returns r = Ensures (λ _. Unit {0}) r
