-- ===== src/Framing/Extension.antt =====
-- aether-core/src/framing.rs: `Extension`, a type, a length of 24 bits and a value, and the loop of
-- `Frame::decode` that reads a chain of them.
use aether_protocol.Prelude.{
  ℕ, zero, suc, ◌+◌, ◌%◌, ◌^◌, Option, none, some, List, [], ◌∷◌, ◌++◌, ltb, leb, if◌then◌else◌,
  length, drop,
}
use aether_protocol.Prelude.Bytes.{to_be, from_be}
use aether_protocol.Errors.{
  Error, Result, ok, err, diverged, ◌>>=◌, ◌>>◌, guard, index, slice_from, slice,
}
use aether_protocol.Framing.Types.{
  ExtType, terminator, ext_type_from_u8, ext_type_to_u8, is_terminator,
}

pub record Extension : Type 0 where
  pub ext_type : ExtType
  pub value : List ℕ

unfoldable pub wire_size : Extension → ℕ
wire_size e = 4 + length e.value

-- The length is cut to a u32, and its three low bytes are written.
unfoldable pub encode_extension : Extension → List ℕ → List ℕ
encode_extension e buf =
    buf ++ (ext_type_to_u8 e.ext_type ∷ (drop 1 (to_be 4 (length e.value % 2 ^ 32)) ++ e.value))

-- `unwrap_or(ExtType::Terminator)`.
abbrev pub or_terminator : Option ExtType → ExtType
or_terminator none = terminator
or_terminator (some t) = t

-- The second half of `decode`: the value, once the type and the length are known.
abbrev pub read_value : ExtType → ℕ → List ℕ → Result (Extension × ℕ)
read_value ext_type len bytes = do
  guard (leb (4 + len) (length bytes)) Error.protocol_violation
  value ← slice bytes 4 (4 + len)
  ok (record { ext_type = ext_type; value = value }, 4 + len)

unfoldable pub decode_extension : List ℕ → Result (Extension × ℕ)
decode_extension bytes = if ltb (length bytes) 4 then err Error.protocol_violation else do
  b0 ← index bytes 0
  let ext_type = or_terminator (ext_type_from_u8 b0)
  b1 ← index bytes 1
  b2 ← index bytes 2
  b3 ← index bytes 3
  read_value ext_type (from_be (0 ∷ b1 ∷ b2 ∷ b3 ∷ [])) bytes

unfoldable pub extension_terminator : Extension
extension_terminator = record { ext_type = terminator; value = [] }

-- `for ext in &self.extensions { ext.encode(&mut buf) }`.
unfoldable pub encode_extensions : List Extension → List ℕ → List ℕ
encode_extensions [] buf = buf
encode_extensions (e ∷ es) buf = encode_extensions es (encode_extension e buf)

-- The `loop` of `Frame::decode`: the extensions read so far, and the offset of the next one.
unfoldable pub read_extensions : ℕ → List ℕ → ℕ → List Extension → Result (List Extension × ℕ)
read_extensions zero bytes offset extensions = diverged
read_extensions (suc fuel) bytes offset extensions =
    if leb (length bytes) offset then err Error.protocol_violation else do
      tail ← slice_from bytes offset
      (ext, consumed) ← decode_extension tail
      let rest = read_extensions fuel bytes (offset + consumed) (extensions ++ (ext ∷ []))
      if is_terminator ext.ext_type then ok (extensions, offset + consumed) else rest
