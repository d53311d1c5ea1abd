-- ===== src/Framing/HeaderBits.antt =====
-- The bits of the two packed bytes of a header, as arithmetic.
use aether_protocol.Prelude.{
  ℕ, ◌+◌, ◌*◌, ◌/◌, ◌%◌, ◌^◌, ◌<◌, bit_and, bit_or, ◌≡◌, refl, arith, Bool, true, false, not, some,
  ◌==◌, if◌then◌else◌,
}
use aether_protocol.Prelude.Bits.{and_three, and_fifteen, and_63, and_16, and_32, or_fields}
use aether_protocol.Framing.Types.{FrameType, frame_type_from_u8, frame_type_to_u8}
use aether_protocol.Framing.Header.{
  ShortHeader, byte0, short_byte1, long_byte1, frame_type_raw, type_lo, e_bit, stream_id_hi,
}

-- The values that a header's fields have room for.
pub record FitsHeader (h : ShortHeader) : Type 0 where
  pub version_fits : h.version < 2 ^ 4
  pub stream_id_fits : h.stream_id < 2 ^ 18
  pub offset_fits : h.offset < 2 ^ 32
  pub length_fits : h.length < 2 ^ 32
  pub connection_id_fits : h.connection_id < 2 ^ 32

pub to_u8-lt : (t : FrameType) → frame_type_to_u8 t < 10
unfolding frame_type_to_u8
to_u8-lt FrameType.initial = omega arith
to_u8-lt _ = omega arith

pub from_u8-to_u8 : (t : FrameType) → frame_type_from_u8 (frame_type_to_u8 t) ≡ some t
unfolding frame_type_from_u8 frame_type_to_u8
from_u8-to_u8 FrameType.initial = refl
from_u8-to_u8 _ = refl

abbrev pub flag : Bool → ℕ
flag b = if b then 1 else 0

type_lo_lem : (h : ShortHeader) → type_lo h ≡ frame_type_to_u8 h.frame_type % 4 * 64
type_lo_lem h = rw and_three (omega arith)

e_bit_lem : (h : ShortHeader) → e_bit h ≡ flag h.has_extensions * 16
e_bit_lem h = ground arith

stream_id_hi_lem : (h : ShortHeader) → FitsHeader h → stream_id_hi h ≡ h.stream_id / 2 ^ 16
stream_id_hi_lem h w = rw and_three (omega (arith, w.stream_id_fits))

pub byte0_lem :
    (h : ShortHeader) → FitsHeader h → byte0 h ≡ h.version * 16 + frame_type_to_u8 h.frame_type / 4
unfolding byte0
byte0_lem h w =
    let t = frame_type_to_u8 h.frame_type in
    omega (
      arith,
      and_fifteen h.version,
      and_63 t,
      to_u8-lt h.frame_type,
      or_fields 4 h.version (bit_and h.version 0x0F * 2 ^ 4 % 256) (bit_and t 0x3F / 2 ^ 2)
          (omega (arith, and_fifteen h.version, w.version_fits))
          (omega (arith, and_63 t, to_u8-lt h.frame_type)),
    )

pub short_byte1_lem :
    (h : ShortHeader)
    → FitsHeader h
    → short_byte1 h
      ≡ frame_type_to_u8 h.frame_type % 4 * 64 + flag h.has_extensions * 16 + h.stream_id / 2 ^ 16
unfolding short_byte1
short_byte1_lem h w =
    let t = frame_type_to_u8 h.frame_type in
    let low : bit_or (type_lo h) (e_bit h) ≡ type_lo h + e_bit h =
      or_fields 6 (t % 4) (type_lo h) (e_bit h) (type_lo_lem h) (ground (arith, e_bit_lem h)) in
    omega (
      arith,
      low,
      type_lo_lem h,
      e_bit_lem h,
      stream_id_hi_lem h w,
      or_fields 4 (t % 4 * 4 + flag h.has_extensions) (bit_or (type_lo h) (e_bit h))
          (stream_id_hi h) (omega (arith, low, type_lo_lem h, e_bit_lem h))
          (omega (arith, stream_id_hi_lem h w, w.stream_id_fits)),
    )

pub long_byte1_lem :
    (h : ShortHeader)
    → FitsHeader h
    → long_byte1 h
      ≡ frame_type_to_u8 h.frame_type % 4 * 64
        + 32
        + flag h.has_extensions * 16
        + h.stream_id / 2 ^ 16
unfolding long_byte1
long_byte1_lem h w =
    let t = frame_type_to_u8 h.frame_type in
    let high : bit_or (type_lo h) 0x20 ≡ type_lo h + 0x20 =
      or_fields 6 (t % 4) (type_lo h) 0x20 (type_lo_lem h) (omega arith) in
    let low : bit_or (bit_or (type_lo h) 0x20) (e_bit h) ≡ bit_or (type_lo h) 0x20 + e_bit h =
      or_fields 5 (t % 4 * 2 + 1) (bit_or (type_lo h) 0x20) (e_bit h)
        (omega (arith, high, type_lo_lem h)) (ground arith) in
    omega (
      arith,
      high,
      low,
      type_lo_lem h,
      e_bit_lem h,
      stream_id_hi_lem h w,
      or_fields 4 (t % 4 * 4 + 2 + flag h.has_extensions)
          (bit_or (bit_or (type_lo h) 0x20) (e_bit h)) (stream_id_hi h)
          (omega (arith, high, low, type_lo_lem h, e_bit_lem h))
          (omega (arith, stream_id_hi_lem h w, w.stream_id_fits)),
    )

-- What `decode` reads off the two bytes, as one statement for both kinds of header: `b1` has the
-- fields of `h`, and the bit of the header's kind.
pub record Packs (h : ShortHeader) (b1 : ℕ) : Type 0 where
  pub type_part : bit_and (b1 / 2 ^ 6) 0x03 ≡ frame_type_to_u8 h.frame_type % 4
  pub flag_part : not (bit_and b1 0x10 == 0) ≡ h.has_extensions
  pub stream_part : bit_and b1 0x03 ≡ h.stream_id / 2 ^ 16

Packs-header_sum :
    (h : ShortHeader) (b1 kind : ℕ)
    → FitsHeader h
    → kind < 2
    → b1
      ≡ frame_type_to_u8 h.frame_type % 4 * 64
        + kind * 32
        + flag h.has_extensions * 16
        + h.stream_id / 2 ^ 16
    → Packs h b1
Packs-header_sum h b1 kind w k e = record {
  type_part = ground (arith, and_three (b1 / 2 ^ 6), w.stream_id_fits);
  flag_part = ground (arith, and_16 b1, w.stream_id_fits);
  stream_part = ground (arith, and_three b1, w.stream_id_fits);
}

pub short_byte1-Packs : (h : ShortHeader) → FitsHeader h → Packs h (short_byte1 h)
short_byte1-Packs h w =
    Packs-header_sum h (short_byte1 h) 0 w (omega arith) (omega (arith, short_byte1_lem h w))

pub long_byte1-Packs : (h : ShortHeader) → FitsHeader h → Packs h (long_byte1 h)
long_byte1-Packs h w =
    Packs-header_sum h (long_byte1 h) 1 w (omega arith) (omega (arith, long_byte1_lem h w))

-- The bit by which a receiver tells the two kinds of header apart.
pub short_byte1_kind :
    (h : ShortHeader) → FitsHeader h → not (bit_and (short_byte1 h) 0x20 == 0) ≡ false
short_byte1_kind h w = ground (arith, and_32 (short_byte1 h), short_byte1_lem h w, w.stream_id_fits)

pub long_byte1_kind :
    (h : ShortHeader) → FitsHeader h → not (bit_and (long_byte1 h) 0x20 == 0) ≡ true
long_byte1_kind h w = ground (arith, and_32 (long_byte1 h), long_byte1_lem h w, w.stream_id_fits)

-- The two parts of the frame type come together again.
pub frame_type_raw_lem :
    (h : ShortHeader) (b1 : ℕ)
    → FitsHeader h
    → Packs h b1
    → frame_type_raw (byte0 h) b1 ≡ frame_type_to_u8 h.frame_type
frame_type_raw_lem h b1 w p =
    let t = frame_type_to_u8 h.frame_type in
    let top : bit_and (bit_and (byte0 h) 0x0F) 0x3F ≡ t / 4 = omega (
      arith,
      and_63 (bit_and (byte0 h) 0x0F),
      and_fifteen (byte0 h),
      byte0_lem h w,
      to_u8-lt h.frame_type,
    ) in
    omega (
      arith,
      top,
      p.type_part,
      to_u8-lt h.frame_type,
      or_fields 2 (t / 4) (bit_and (bit_and (byte0 h) 0x0F) 0x3F * 2 ^ 2 % 256)
          (bit_and (b1 / 2 ^ 6) 0x03) (omega (arith, top, to_u8-lt h.frame_type))
          (omega (arith, p.type_part)),
    )
