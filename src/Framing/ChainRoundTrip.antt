-- ===== src/Framing/ChainRoundTrip.antt =====
-- Reading back one extension, and a chain of them with its terminator.
use aether_protocol.Prelude.{
  ℕ, zero, suc, ◌+◌, ◌-◌, ◌%◌, ◌^◌, ◌≤◌, ◌<◌, ◌≡◌, refl, ◌∙◌, ap, sym, arith, false, List, [], ◌∷◌,
  ◌++◌, append_assoc, append-nil, length, drop, All, length-append, length-drop, drop-drop,
  take-length-append, drop-length-append, ge→ltb, gt→leb, le→leb, if◌then◌else◌, some,
}
use aether_protocol.Prelude.Bytes.{to_be, from_be, from_be-to_be}
use aether_protocol.Errors.{ok}
use aether_protocol.Framing.Types.{
  ExtType, terminator, ext_type_from_u8, ext_type_to_u8, is_terminator,
}
use aether_protocol.Framing.Extension.{
  or_terminator, Extension, wire_size, encode_extension, decode_extension, extension_terminator,
  encode_extensions, read_extensions,
}

-- The length field has 24 bits.
abbrev pub FitsValue : Extension → Type 0
FitsValue e = length e.value < 2 ^ 24

-- What a chain may hold: values that fit, and no terminator among them.
abbrev pub FitsChain : List Extension → Type 0
FitsChain = All (λ e. FitsValue e × (is_terminator e.ext_type ≡ false))

ext_from_u8-to_u8 : (t : ExtType) → ext_type_from_u8 (ext_type_to_u8 t) ≡ some t
unfolding ext_type_from_u8 ext_type_to_u8
ext_from_u8-to_u8 terminator = refl
ext_from_u8-to_u8 _ = refl

pub length-encode_extension : (e : Extension) → length (encode_extension e []) ≡ wire_size e
unfolding encode_extension wire_size
length-encode_extension e = omega arith

length_lem :
    (value : List ℕ)
    → length value < 2 ^ 24
    → from_be (0 ∷ drop 1 (to_be 4 (length value % 2 ^ 32))) ≡ length value
length_lem value h =
    let small : length value % 2 ^ 32 ≡ length value = omega arith in
    rw small (from_be-to_be 3 (length value) h)

-- The bytes of an extension whose type is the byte `t`, known or not.
abbrev pub raw_extension : ℕ → List ℕ → List ℕ → List ℕ
raw_extension t value rest = t ∷ (drop 1 (to_be 4 (length value % 2 ^ 32)) ++ (value ++ rest))

pub decode-raw :
    (t : ℕ) (value rest : List ℕ)
    → length value < 2 ^ 24
    → decode_extension (raw_extension t value rest)
      ≡ ok (
        record { ext_type = or_terminator (ext_type_from_u8 t); value = value },
        4 + length value,
      )
unfolding decode_extension
decode-raw t value rest h =
    let n = length value in
    let whole : length (raw_extension t value rest) ≡ 4 + n + length rest =
      omega (arith, length-append value rest) in
    rw
      (
        ge→ltb (length (raw_extension t value rest)) 4 (omega (arith, whole)),
        length_lem value h,
        le→leb (4 + n) (length (raw_extension t value rest)) (omega (arith, whole)),
        le→leb 4 (4 + n) (omega arith),
        sub_four n,
        take-length-append value rest,
      )
      refl
  where
    sub_four : (k : ℕ) → 4 + k - 4 ≡ k
    sub_four k = omega arith

-- One extension whose value fits is read back, with the bytes that it took.
pub decode-encode_extension :
    (e : Extension) (rest : List ℕ)
    → FitsValue e
    → decode_extension (encode_extension e [] ++ rest) ≡ ok (e, wire_size e)
unfolding encode_extension wire_size
decode-encode_extension e rest h =
    decode-raw (ext_type_to_u8 e.ext_type) e.value rest h ∙ rw (ext_from_u8-to_u8 e.ext_type) refl

size_pos : (e : Extension) → 4 ≤ wire_size e
unfolding wire_size
size_pos e = omega arith

-- The bytes of a chain, its terminator and what follows.
abbrev pub chain : List Extension → List ℕ → List ℕ
chain [] rest = encode_extension extension_terminator [] ++ rest
chain (e ∷ es) rest = encode_extension e [] ++ chain es rest

encode_extension-append :
    (e : Extension) (buf : List ℕ) → encode_extension e buf ≡ buf ++ encode_extension e []
unfolding encode_extension
encode_extension-append e buf = refl

-- Writing a chain appends it to the buffer.
pub encode-chain :
    (es : List Extension) (buf rest : List ℕ)
    → encode_extension extension_terminator (encode_extensions es buf) ++ rest
      ≡ buf ++ chain es rest
unfolding encode_extensions
encode-chain [] buf rest =
    rw (encode_extension-append extension_terminator buf)
      (append_assoc buf (encode_extension extension_terminator []) rest)
encode-chain (e ∷ es) buf rest =
    encode-chain es (encode_extension e buf) rest
    ∙ rw (encode_extension-append e buf) (append_assoc buf (encode_extension e []) (chain es rest))

-- One round of the loop, at an extension that stands at `offset`.
module _ (bytes rest : List ℕ) (offset : ℕ) (e : Extension) (h : FitsValue e)
    (here : drop offset bytes ≡ encode_extension e [] ++ rest) where
  here_length : length bytes - offset ≡ wire_size e + length rest
  here_length = omega (
    arith,
    length-drop offset bytes,
    ap length here,
    length-append (encode_extension e []) rest,
    length-encode_extension e,
  )

  -- What stands behind it.
  pub drop_behind : drop (offset + wire_size e) bytes ≡ rest
  drop_behind =
      sym (drop-drop offset (wire_size e) bytes)
      ∙ rw (here, ← length-encode_extension e) (drop-length-append (encode_extension e []) rest)

  pub behind-le : offset + wire_size e ≤ length bytes
  unfolding wire_size
  behind-le = omega (arith, here_length)

  pub read_step :
      (fuel : ℕ) (acc : List Extension)
      → read_extensions (suc fuel) bytes offset acc ≡ (
          if is_terminator e.ext_type
          then ok (acc, offset + wire_size e)
          else read_extensions fuel bytes (offset + wire_size e) (acc ++ (e ∷ [])))
  unfolding read_extensions
  read_step fuel acc =
      rw
        (
          gt→leb (length bytes) offset (unfold wire_size in omega (arith, here_length)),
          le→leb offset (length bytes) (unfold wire_size in omega (arith, here_length)),
          here,
          decode-encode_extension e rest h,
        )
        refl

terminator-FitsValue : FitsValue extension_terminator
unfolding extension_terminator
terminator-FitsValue = omega arith

-- A chain that fits is read back whole, up to the first byte behind its terminator.
pub read-chain :
    (es : List Extension) (fuel : ℕ) (bytes rest : List ℕ) (offset : ℕ) (acc : List Extension)
    → FitsChain es
    → length es < fuel
    → drop offset bytes ≡ chain es rest
    → (stop : ℕ) × (read_extensions fuel bytes offset acc ≡ ok (acc ++ es, stop))
      × (drop stop bytes ≡ rest)
      × (stop ≤ length bytes)
read-chain es zero bytes rest offset acc w m here = absurd (omega arith)
read-chain [] (suc fuel) bytes rest offset acc w m here =
    let t = extension_terminator in
    (
      offset + wire_size t,
      read_step bytes rest offset t terminator-FitsValue here fuel acc
          ∙ rw append-nil (unfold extension_terminator in refl),
      drop_behind bytes rest offset t terminator-FitsValue here,
      behind-le bytes rest offset t terminator-FitsValue here,
    )
read-chain (e ∷ es) (suc fuel) bytes rest offset acc w m here =
    let (stop, found, behind, within) =
      read-chain es fuel bytes rest (offset + wire_size e) (acc ++ (e ∷ [])) w.1 (omega arith)
        (drop_behind bytes (chain es rest) offset e w.0.0 here) in
    (
      stop,
      read_step bytes (chain es rest) offset e w.0.0 here fuel acc
          ∙ rw w.0.1 (found ∙ ap (λ l. ok (l, stop)) (append_assoc acc (e ∷ []) es)),
      behind,
      within,
    )

pub length-le-chain : (es : List Extension) (rest : List ℕ) → length es ≤ length (chain es rest)
length-le-chain [] rest = omega arith
length-le-chain (e ∷ es) rest = omega (
  arith,
  length-le-chain es rest,
  length-append (encode_extension e []) (chain es rest),
  length-encode_extension e,
  size_pos e,
)
