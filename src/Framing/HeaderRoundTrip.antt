-- ===== src/Framing/HeaderRoundTrip.antt =====
-- Decoding an encoded header, whatever bytes follow it.
use aether_protocol.Prelude.{
  ℕ, ◌*◌, ◌/◌, ◌%◌, ◌^◌, ◌<◌, bit_and, bit_or, ◌≡◌, arith, List, [], ◌∷◌, ◌++◌, length, ge→ltb,
  le→leb,
}
use aether_protocol.Prelude.Bits.{and_fifteen, or_fields}
use aether_protocol.Prelude.Bytes.{to_be, from_be, from_be-to_be}
use aether_protocol.Errors.{ok}
use aether_protocol.Framing.Header.{
  ShortHeader, LongHeader, byte0, short_byte1, long_byte1, fixed_fields, encode_short_header,
  decode_short_header, encode_long_header, decode_long_header,
}
use aether_protocol.Framing.HeaderBits.{
  FitsHeader, Packs, byte0_lem, frame_type_raw_lem, from_u8-to_u8, to_u8-lt, short_byte1-Packs,
  long_byte1-Packs,
}

version_lem : (h : ShortHeader) → FitsHeader h → bit_and (byte0 h / 2 ^ 4) 0x0F ≡ h.version
version_lem h w =
    omega
      (arith, and_fifteen (byte0 h / 2 ^ 4), byte0_lem h w, to_u8-lt h.frame_type, w.version_fits)

stream_id_lem :
    (h : ShortHeader) (b1 : ℕ)
    → FitsHeader h
    → Packs h b1
    → bit_or (bit_and b1 0x03 * 2 ^ 16 % 2 ^ 32) (from_be (to_be 2 (h.stream_id % 2 ^ 16)))
      ≡ h.stream_id
stream_id_lem h b1 w p =
    let low : from_be (to_be 2 (h.stream_id % 2 ^ 16)) ≡ h.stream_id % 2 ^ 16 =
      from_be-to_be 2 (h.stream_id % 2 ^ 16) (omega arith) in
    rw low (
      omega (
        arith,
        p.stream_part,
        w.stream_id_fits,
        or_fields 16 (h.stream_id / 2 ^ 16) (bit_and b1 0x03 * 2 ^ 16 % 2 ^ 32)
            (h.stream_id % 2 ^ 16) (omega (arith, p.stream_part, w.stream_id_fits)) (omega arith),
      ))

module _ (h : ShortHeader) (b1 : ℕ) (rest : List ℕ) (w : FitsHeader h) (p : Packs h b1) where
  -- The header that stands in the bytes `byte0 h ∷ b1 ∷ …` is `h`.
  pub decode_packed : decode_short_header (byte0 h ∷ b1 ∷ fixed_fields h rest) ≡ ok h
  unfolding decode_short_header
  decode_packed =
      rw
        (
          ge→ltb (length (byte0 h ∷ b1 ∷ fixed_fields h rest)) 16 (omega arith),
          frame_type_raw_lem h b1 w p,
          from_u8-to_u8 h.frame_type,
        )
        (cc (
          version_lem h w,
          p.flag_part,
          stream_id_lem h b1 w p,
          from_be-to_be 4 h.offset w.offset_fits,
          from_be-to_be 4 h.length w.length_fits,
          from_be-to_be 4 h.connection_id w.connection_id_fits,
        ))

-- A short header that fits its fields is read back from what was written, whatever follows it.
pub decode-encode_short_header :
    (h : ShortHeader) (rest : List ℕ)
    → FitsHeader h
    → decode_short_header (encode_short_header h [] ++ rest) ≡ ok h
unfolding encode_short_header
decode-encode_short_header h rest w = decode_packed h (short_byte1 h) rest w (short_byte1-Packs h w)

-- So is a long header, whose source connection id is a u64.
pub decode-encode_long_header :
    (l : LongHeader) (rest : List ℕ)
    → FitsHeader l.short
    → l.source_connection_id < 2 ^ 64
    → decode_long_header (encode_long_header l [] ++ rest) ≡ ok l
unfolding encode_long_header decode_long_header
decode-encode_long_header l rest w fits =
    rw
      (
        ge→ltb (length (encode_long_header l [] ++ rest)) 24 (omega arith),
        le→leb 16 (length (encode_long_header l [] ++ rest)) (omega arith),
        decode_packed l.short (long_byte1 l.short) [] w (long_byte1-Packs l.short w),
      )
      (cc (from_be-to_be 8 l.source_connection_id fits))
