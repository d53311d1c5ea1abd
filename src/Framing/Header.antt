-- ===== src/Framing/Header.antt =====
-- aether-core/src/framing.rs: `ShortHeader` (16 bytes) and `LongHeader` (24 bytes).
use aether_protocol.Prelude.{
  ℕ, ◌+◌, ◌*◌, ◌/◌, ◌%◌, ◌^◌, bit_and, bit_or, Bool, not, List, [], ◌∷◌, ◌++◌, ltb, ◌==◌,
  if◌then◌else◌, length, zero, suc,
}
use aether_protocol.Prelude.Bytes.{to_be, from_be}
use aether_protocol.Errors.{Error, Result, ok, err, ◌>>=◌, or_error, index, slice}
use aether_protocol.Framing.Types.{
  FrameType, frame_type_from_u8, frame_type_to_u8, short_header_size, long_header_size,
  aether_version,
}

pub record ShortHeader : Type 0 where
  pub version : ℕ
  pub frame_type : FrameType
  pub has_extensions : Bool
  pub stream_id : ℕ
  pub offset : ℕ
  pub length : ℕ
  pub connection_id : ℕ

-- Bytes 0 and 1 of a header. A shift of a u8 to the left drops the bits above the eighth.
unfoldable pub byte0 : ShortHeader → ℕ
byte0 h =
    bit_or (bit_and h.version 0x0F * 2 ^ 4 % 256)
      (bit_and (frame_type_to_u8 h.frame_type) 0x3F / 2 ^ 2)

abbrev pub e_bit : ShortHeader → ℕ
e_bit h = if h.has_extensions then 0x10 else 0

abbrev pub stream_id_hi : ShortHeader → ℕ
stream_id_hi h = bit_and (h.stream_id / 2 ^ 16) 0x03 % 256

abbrev pub type_lo : ShortHeader → ℕ
type_lo h = bit_and (frame_type_to_u8 h.frame_type) 0x03 * 2 ^ 6 % 256

unfoldable pub short_byte1 : ShortHeader → ℕ
short_byte1 h = bit_or (bit_or (type_lo h) (e_bit h)) (stream_id_hi h)

unfoldable pub long_byte1 : ShortHeader → ℕ
long_byte1 h = bit_or (bit_or (bit_or (type_lo h) 0x20) (e_bit h)) (stream_id_hi h)

-- The fields behind the first two bytes.
abbrev pub fixed_fields : ShortHeader → List ℕ → List ℕ
fixed_fields h rest =
    to_be 2 (h.stream_id % 2 ^ 16)
    ++ (to_be 4 h.offset ++ (to_be 4 h.length ++ (to_be 4 h.connection_id ++ rest)))

unfoldable pub encode_short_header : ShortHeader → List ℕ → List ℕ
encode_short_header h buf = buf ++ (byte0 h ∷ short_byte1 h ∷ fixed_fields h [])

-- `[data[at], data[at + 1], …]`, of `w` elements.
abbrev pub indices : ℕ → List ℕ → ℕ → Result (List ℕ)
indices zero bytes at = ok []
indices (suc w) bytes at = do b ← index bytes at; bs ← indices w bytes (at + 1); ok (b ∷ bs)

-- `uN::from_be_bytes([data[at], …])`.
abbrev pub be_at : ℕ → List ℕ → ℕ → Result ℕ
be_at w bytes at = do bs ← indices w bytes at; ok (from_be bs)

abbrev pub frame_type_raw : ℕ → ℕ → ℕ
frame_type_raw b0 b1 =
    bit_or (bit_and (bit_and b0 0x0F) 0x3F * 2 ^ 2 % 256) (bit_and (b1 / 2 ^ 6) 0x03)

unfoldable pub decode_short_header : List ℕ → Result ShortHeader
decode_short_header bytes =
    if ltb (length bytes) short_header_size then err Error.protocol_violation else do
      b0 ← index bytes 0
      b1 ← index bytes 1
      let version = bit_and (b0 / 2 ^ 4) 0x0F
      let has_extensions = not (bit_and b1 0x10 == 0)
      let hi = bit_and b1 0x03
      frame_type ← or_error (frame_type_from_u8 (frame_type_raw b0 b1)) Error.protocol_violation
      lo ← be_at 2 bytes 2
      let stream_id = bit_or (hi * 2 ^ 16 % 2 ^ 32) lo
      offset ← be_at 4 bytes 4
      len ← be_at 4 bytes 8
      connection_id ← be_at 4 bytes 12
      ok (record {
        version = version;
        frame_type = frame_type;
        has_extensions = has_extensions;
        stream_id = stream_id;
        offset = offset;
        length = len;
        connection_id = connection_id;
      })

pub record LongHeader : Type 0 where
  pub short : ShortHeader
  pub source_connection_id : ℕ

unfoldable pub new_long_header : FrameType → ℕ → ℕ → ℕ → Bool → ℕ → ℕ → LongHeader
new_long_header frame_type stream_id dest_connection_id source_connection_id has_extensions offset
      len =
    record {
      short = record {
        version = aether_version;
        frame_type = frame_type;
        has_extensions = has_extensions;
        stream_id = stream_id;
        offset = offset;
        length = len;
        connection_id = dest_connection_id;
      };
      source_connection_id = source_connection_id;
    }

unfoldable pub encode_long_header : LongHeader → List ℕ → List ℕ
encode_long_header l buf =
    buf
    ++ (byte0 l.short ∷ long_byte1 l.short ∷ fixed_fields l.short (to_be 8 l.source_connection_id))

unfoldable pub decode_long_header : List ℕ → Result LongHeader
decode_long_header bytes =
    if ltb (length bytes) long_header_size then err Error.protocol_violation else do
      head ← slice bytes 0 16
      short ← decode_short_header head
      source_connection_id ← be_at 8 bytes 16
      ok (record { short = short; source_connection_id = source_connection_id })
