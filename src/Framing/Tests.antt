-- ===== src/Framing/Tests.antt =====
-- Concrete frames on the wire, and the theorems of framing at concrete inputs.
use aether_protocol.Prelude.{
  ℕ, List, ◌^◌, ◌≡◌, refl, ap, arith, true, some, none, [], ◌∷◌, ◌++◌, length,
}
use aether_protocol.Errors.{ok, Returns}
use aether_protocol.Framing.Types.{FrameType, ExtType}
use aether_protocol.Framing.Extension.{
  Extension, read_extensions, encode_extension, encode_extensions, extension_terminator,
}
use aether_protocol.Framing.Header.{
  ShortHeader, LongHeader, encode_short_header, byte0, short_byte1,
}
use aether_protocol.Framing.Frame.{
  Frame, new_long, add_extension, encode_frame, decode_frame, frame_wire_size,
}
use aether_protocol.Framing.Types.{frame_type_to_u8, ext_type_to_u8, requires_long_header}
use aether_protocol.Framing.HeaderBits.{FitsHeader, flag}
use aether_protocol.Framing.FrameRoundTrip.{
  FitsFrame, decode-encode_short_frame, decode-encode_long_frame,
}
use aether_protocol.Framing.Total.{decode_frame-Returns}
use aether_protocol.Framing.Fuel.{read_extensions-ends}
use aether_protocol.Framing.Size.{wire_size-encode}
use aether_protocol.Framing.LostExtension.{add_extension-lost}

abbrev priority_of_seven : Extension
priority_of_seven = record { ext_type = ExtType.priority; value = 7 ∷ [] }

-- A data frame of stream 65540 with one extension.
abbrev tagged_header : ShortHeader
tagged_header = record {
  version = 0;
  frame_type = FrameType.data_frame;
  has_extensions = true;
  stream_id = 65540;
  offset = 300;
  length = 2;
  connection_id = 0xABCD;
}

abbrev tagged_frame : Frame
tagged_frame = record {
  long_header = none;
  header = tagged_header;
  extensions = priority_of_seven ∷ [];
  payload = 1 ∷ 2 ∷ [];
}

tagged_frame_bytes :
    encode_frame tagged_frame
    ≡ 0 ∷ 0x91 ∷ 0 ∷ 4 ∷ 0 ∷ 0 ∷ 1 ∷ 44 ∷ 0 ∷ 0 ∷ 0 ∷ 2 ∷ 0 ∷ 0 ∷ 0xAB ∷ 0xCD ∷ 2 ∷ 0 ∷ 0 ∷ 1 ∷ 7
      ∷ 0 ∷ 0 ∷ 0 ∷ 0 ∷ 1 ∷ 2 ∷ []
unfolding encode_frame encode_short_header byte0 short_byte1 frame_type_to_u8 encode_extensions
    encode_extension ext_type_to_u8 extension_terminator
tagged_frame_bytes = refl

tagged_header_fits : FitsHeader tagged_header
tagged_header_fits = omega arith

tagged_frame_fits : FitsFrame tagged_frame
tagged_frame_fits = record {
  header_fits = tagged_header_fits;
  length_exact = refl;
  chain_fits = ((omega arith, refl), tt);
  announced = λ e. absurd (omega (arith, ap flag e));
}

decode-encode_short_frame_example :
    decode_frame (encode_frame tagged_frame ++ (9 ∷ [])) ≡ ok tagged_frame
decode-encode_short_frame_example =
    decode-encode_short_frame tagged_frame (9 ∷ []) tagged_frame_fits refl

abbrev hello_header : LongHeader
hello_header = record {
  short = record {
    version = 0;
    frame_type = FrameType.initial;
    has_extensions = true;
    stream_id = 0;
    offset = 0;
    length = 2;
    connection_id = 0xABCD;
  };
  source_connection_id = 2 ^ 40;
}

abbrev hello_frame : Frame
hello_frame = record {
  long_header = some hello_header;
  header = hello_header.short;
  extensions = priority_of_seven ∷ [];
  payload = 5 ∷ 6 ∷ [];
}

decode-encode_long_frame_example : decode_frame (encode_frame hello_frame ++ []) ≡ ok hello_frame
unfolding requires_long_header
decode-encode_long_frame_example =
    decode-encode_long_frame hello_frame hello_header []
      (record {
        header_fits = omega arith;
        length_exact = refl;
        chain_fits = ((omega arith, refl), tt);
        announced = λ e. absurd (omega (arith, ap flag e));
      })
      (record { is_long = refl; same_header = refl; long_type = refl; source_fits = omega arith })

decode_frame-Returns_example : Returns (decode_frame (0 ∷ 0x90 ∷ 0 ∷ []))
decode_frame-Returns_example = decode_frame-Returns (0 ∷ 0x90 ∷ 0 ∷ [])

wire_size-encode_example : frame_wire_size tagged_frame ≡ length (encode_frame tagged_frame)
wire_size-encode_example = wire_size-encode tagged_frame

-- The first byte of the extension, 2, and its length's first byte are taken for the payload.
add_extension-lost_example :
    decode_frame (
      encode_frame
        (add_extension (new_long FrameType.initial 0 7 8 (1 ∷ 9 ∷ [])) priority_of_seven))
    ≡ ok (record (new_long FrameType.initial 0 7 8 (1 ∷ 9 ∷ [])) { payload = 2 ∷ 0 ∷ [] })
unfolding encode_extension ext_type_to_u8
add_extension-lost_example =
    add_extension-lost FrameType.initial 0 7 8 (1 ∷ 9 ∷ []) priority_of_seven (omega arith)
      (omega arith) (unfold requires_long_header in refl)

read_extensions-ends_example :
    let bytes : List ℕ = 1 ∷ 0 ∷ 0 ∷ 1 ∷ 7 ∷ 0 ∷ 0 ∷ 0 ∷ 0 ∷ [] in
    Returns (read_extensions 10 bytes 0 [])
    × (read_extensions 10 bytes 0 [] ≡ read_extensions 50 bytes 0 [])
read_extensions-ends_example =
    read_extensions-ends 10 50 (1 ∷ 0 ∷ 0 ∷ 1 ∷ 7 ∷ 0 ∷ 0 ∷ 0 ∷ 0 ∷ []) 0 [] (omega arith)
      (omega arith)
