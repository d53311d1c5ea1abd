-- ===== src/Framing/Size.antt =====
-- `wire_size` against the bytes that `encode` writes.
use aether_protocol.Prelude.{
  ℕ, ◌+◌, ◌≡◌, refl, arith, Bool, true, false, Option, some, none, List, [], ◌∷◌, length,
  length-append, if◌then◌else◌,
}
use aether_protocol.Framing.Types.{short_header_size, long_header_size}
use aether_protocol.Framing.Extension.{
  Extension, wire_size, encode_extension, encode_extensions, extension_terminator,
}
use aether_protocol.Framing.Header.{
  ShortHeader, LongHeader, encode_short_header, encode_long_header,
}
use aether_protocol.Framing.Frame.{
  Frame, encode_header, write_chain, encode_frame, extensions_size, frame_wire_size,
}

length-encode_extension :
    (e : Extension) (buf : List ℕ) → length (encode_extension e buf) ≡ length buf + wire_size e
unfolding encode_extension wire_size
length-encode_extension e buf = rw length-append (omega arith)

length-encode_extensions :
    (es : List Extension) (buf : List ℕ)
    → length (encode_extensions es buf) ≡ length buf + extensions_size es
unfolding encode_extensions
length-encode_extensions [] buf = omega arith
length-encode_extensions (e ∷ es) buf =
    omega
      (arith, length-encode_extensions es (encode_extension e buf), length-encode_extension e buf)

abbrev header_size : Option LongHeader → ℕ
header_size o = elim o [ some long ↦ long_header_size | none ↦ short_header_size ]

length-encode_header :
    (o : Option LongHeader) (h : ShortHeader) → length (encode_header o h []) ≡ header_size o
unfolding encode_short_header encode_long_header
length-encode_header (some l) h = refl
length-encode_header none h = refl

terminator_size : wire_size extension_terminator ≡ 4
unfolding extension_terminator wire_size
terminator_size = refl

length-write_chain :
    (has : Bool) (es : List Extension) (buf : List ℕ)
    → length (write_chain has es buf) ≡ length buf + (if has then extensions_size es + 4 else 0)
length-write_chain true es buf = omega (
  arith,
  length-encode_extension extension_terminator (encode_extensions es buf),
  length-encode_extensions es buf,
  terminator_size,
)
length-write_chain false es buf = omega arith

-- `wire_size` is the number of bytes that `encode` writes, for every frame.
pub wire_size-encode : (f : Frame) → frame_wire_size f ≡ length (encode_frame f)
unfolding frame_wire_size encode_frame
wire_size-encode f = omega (
  arith,
  length-append
      (write_chain f.header.has_extensions f.extensions (encode_header f.long_header f.header []))
      f.payload,
  length-write_chain f.header.has_extensions f.extensions (encode_header f.long_header f.header []),
  length-encode_header f.long_header f.header,
)
