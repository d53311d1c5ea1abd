-- ===== src/Framing/Frame.antt =====
-- aether-core/src/framing.rs: `Frame`, its builders, `encode`, `decode` and `wire_size`.
use aether_protocol.Prelude.{
  ℕ, ◌+◌, ◌%◌, ◌^◌, bit_and, Bool, true, false, not, Option, none, some, List, [], ◌∷◌, ◌++◌, leb,
  ◌==◌, if◌then◌else◌, length, get_elem?,
}
use aether_protocol.Prelude.Bytes.{to_be}
use aether_protocol.Errors.{
  Error, Result, ok, err, ◌>>=◌, ◌>>◌, guard, slice, CloseCode, close_code_to_u8,
}
use aether_protocol.Framing.Types.{
  FrameType, data_frame, ack, close, ping, path_challenge, path_response, stream_open, stream_close,
  path_id, requires_long_header, short_header_size, long_header_size, control_stream_id,
  aether_version,
}
use aether_protocol.Framing.Extension.{
  Extension, wire_size, encode_extension, encode_extensions, extension_terminator, read_extensions,
}
use aether_protocol.Framing.Header.{
  ShortHeader, LongHeader, new_long_header, encode_short_header, decode_short_header,
  encode_long_header, decode_long_header,
}

pub record Frame : Type 0 where
  pub long_header : Option LongHeader
  pub header : ShortHeader
  pub extensions : List Extension
  pub payload : List ℕ

unfoldable pub new_long : FrameType → ℕ → ℕ → ℕ → List ℕ → Frame
new_long frame_type stream_id dest_connection_id source_connection_id payload =
    let long =
      new_long_header frame_type stream_id dest_connection_id source_connection_id false 0
        (length payload % 2 ^ 32) in
    record { long_header = some long; header = long.short; extensions = []; payload = payload }

unfoldable pub new_short : FrameType → ℕ → ℕ → ℕ → List ℕ → Frame
new_short frame_type stream_id connection_id offset payload = record {
  long_header = none;
  header = record {
    version = aether_version;
    frame_type = frame_type;
    has_extensions = false;
    stream_id = stream_id;
    offset = offset;
    length = length payload % 2 ^ 32;
    connection_id = connection_id;
  };
  extensions = [];
  payload = payload;
}

-- Only the short header learns of the extension.
unfoldable pub add_extension : Frame → Extension → Frame
add_extension f ext =
    let h = f.header in
    record f {
      header = record h { has_extensions = true };
      extensions = f.extensions ++ (ext ∷ []);
    }

-- The long header is written if there is one, and else the short one.
abbrev pub encode_header : Option LongHeader → ShortHeader → List ℕ → List ℕ
encode_header (some long) header buf = encode_long_header long buf
encode_header none header buf = encode_short_header header buf

abbrev pub write_chain : Bool → List Extension → List ℕ → List ℕ
write_chain has_extensions extensions buf =
    if has_extensions
    then encode_extension extension_terminator (encode_extensions extensions buf)
    else buf

unfoldable pub encode_frame : Frame → List ℕ
encode_frame f =
    write_chain f.header.has_extensions f.extensions (encode_header f.long_header f.header [])
    ++ f.payload

-- The extensions, if the header announces any, and the offset behind them. A chain takes four bytes
-- an extension at least, so the fuel is more than any chain needs.
abbrev pub read_chain : Bool → List ℕ → ℕ → Result (List Extension × ℕ)
read_chain has_extensions bytes offset =
    if has_extensions then read_extensions (length bytes + 1) bytes offset [] else ok ([], offset)

abbrev pub read_payload : List ℕ → ℕ → ℕ → Result (List ℕ)
read_payload bytes offset payload_len = do
  guard (leb (offset + payload_len) (length bytes)) Error.protocol_violation
  slice bytes offset (offset + payload_len)

unfoldable pub decode_long_frame : List ℕ → Result Frame
decode_long_frame bytes = do
  long ← decode_long_header bytes
  let header = long.short
  guard (requires_long_header header.frame_type) Error.protocol_violation
  (extensions, offset) ← read_chain header.has_extensions bytes long_header_size
  payload ← read_payload bytes offset header.length
  ok (record {
    long_header = some long;
    header = header;
    extensions = extensions;
    payload = payload;
  })

unfoldable pub decode_short_frame : List ℕ → Result Frame
decode_short_frame bytes = do
  header ← decode_short_header bytes
  (extensions, offset) ← read_chain header.has_extensions bytes short_header_size
  payload ← read_payload bytes offset header.length
  ok (record { long_header = none; header = header; extensions = extensions; payload = payload })

-- `if data.len() > 1 { data[1] } else { 0 }`.
abbrev pub byte_or_zero : Option ℕ → ℕ
byte_or_zero none = 0
byte_or_zero (some b) = b

unfoldable pub decode_frame : List ℕ → Result Frame
decode_frame [] = err Error.protocol_violation
decode_frame (b ∷ bytes) =
    let byte1 = byte_or_zero (get_elem? (b ∷ bytes) 1) in
    let h_bit = not (bit_and byte1 0x20 == 0) in
    if h_bit then decode_long_frame (b ∷ bytes) else decode_short_frame (b ∷ bytes)

abbrev pub extensions_size : List Extension → ℕ
extensions_size [] = 0
extensions_size (e ∷ es) = wire_size e + extensions_size es

unfoldable pub frame_wire_size : Frame → ℕ
frame_wire_size f =
    let header_size : ℕ = elim f.long_header [
      | some long ↦ long_header_size
      | none ↦ short_header_size
    ] in
    let ext_size = if f.header.has_extensions then extensions_size f.extensions + 4 else 0 in
    header_size + ext_size + length f.payload

-- The builders. The nonce of a ping is drawn at random by the source, and is an argument here.
unfoldable pub new_data : ℕ → ℕ → ℕ → List ℕ → Frame
new_data stream_id connection_id offset bytes =
    new_short data_frame stream_id connection_id offset bytes

unfoldable pub new_ack : ℕ → ℕ → ℕ → Frame
new_ack stream_id connection_id acked_offset =
    new_short ack stream_id connection_id 0 (to_be 4 acked_offset)

unfoldable pub new_ping : ℕ → ℕ → Frame
new_ping connection_id nonce = new_short ping control_stream_id connection_id 0 (to_be 8 nonce)

unfoldable pub new_close : ℕ → CloseCode → List ℕ → Frame
new_close connection_id code reason =
    new_short close control_stream_id connection_id 0 (close_code_to_u8 code ∷ reason)

unfoldable pub new_path_challenge : ℕ → ℕ → ℕ → Frame
new_path_challenge connection_id path nonce =
    add_extension (new_short path_challenge control_stream_id connection_id 0 (to_be 8 nonce))
      (record { ext_type = path_id; value = path ∷ [] })

unfoldable pub new_path_response : ℕ → ℕ → ℕ → Frame
new_path_response connection_id path nonce =
    add_extension (new_short path_response control_stream_id connection_id 0 (to_be 8 nonce))
      (record { ext_type = path_id; value = path ∷ [] })

unfoldable pub new_stream_open : ℕ → ℕ → Frame
new_stream_open connection_id stream_id = new_short stream_open stream_id connection_id 0 []

unfoldable pub new_stream_close : ℕ → ℕ → Frame
new_stream_close connection_id stream_id = new_short stream_close stream_id connection_id 0 []
