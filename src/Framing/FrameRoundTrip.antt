-- ===== src/Framing/FrameRoundTrip.antt =====
-- A frame that was written is read back whole, whatever follows it.
use mathlib.Core.Path.{subst}
use aether_protocol.Prelude.{
  Option, ℕ, ◌+◌, ◌-◌, ◌^◌, ◌≤◌, ◌<◌, ◌≡◌, refl, ◌∙◌, ap, sym, arith, Bool, true, false, some, none,
  List, [], ◌++◌, append_assoc, length, drop, length-append, length-drop, take-length-append,
  le→leb, if◌then◌else◌,
}
use aether_protocol.Errors.{ok}
use aether_protocol.Framing.Types.{requires_long_header}
use aether_protocol.Framing.Extension.{Extension}
use aether_protocol.Framing.Header.{
  ShortHeader, LongHeader, encode_short_header, encode_long_header,
}
use aether_protocol.Framing.Frame.{
  Frame, encode_header, write_chain, encode_frame, read_chain, read_payload, decode_frame,
  decode_short_frame, decode_long_frame,
}
use aether_protocol.Framing.HeaderBits.{FitsHeader, short_byte1_kind, long_byte1_kind}
use aether_protocol.Framing.HeaderRoundTrip.{decode-encode_short_header, decode-encode_long_header}
use aether_protocol.Framing.ChainRoundTrip.{
  FitsChain, chain, encode-chain, read-chain, length-le-chain,
}

-- What the wire format has room for, and what its two optional parts presuppose.
pub record FitsFrame (f : Frame) : Type 0 where
  pub header_fits : FitsHeader f.header
  pub length_exact : f.header.length ≡ length f.payload
  pub chain_fits : FitsChain f.extensions
  pub announced : f.header.has_extensions ≡ false → f.extensions ≡ []

-- The two parts of a long frame repeat the same header.
pub record FitsLong (f : Frame) (l : LongHeader) : Type 0 where
  pub is_long : f.long_header ≡ some l
  pub same_header : f.header ≡ l.short
  pub long_type : requires_long_header l.short.frame_type ≡ true
  pub source_fits : l.source_connection_id < 2 ^ 64

-- What stands behind the header.
abbrev pub body : Bool → List Extension → List ℕ → List ℕ
body has_extensions extensions rest = if has_extensions then chain extensions rest else rest

write-body :
    (has : Bool) (es : List Extension) (buf payload rest : List ℕ)
    → (write_chain has es buf ++ payload) ++ rest ≡ buf ++ body has es (payload ++ rest)
write-body true es buf payload rest =
    append_assoc (write_chain true es buf) payload rest ∙ encode-chain es buf (payload ++ rest)
write-body false es buf payload rest = append_assoc buf payload rest

read-payload :
    (bytes payload rest : List ℕ) (offset : ℕ)
    → drop offset bytes ≡ payload ++ rest
    → offset ≤ length bytes
    → read_payload bytes offset (length payload) ≡ ok payload
read-payload bytes payload rest offset here within =
    let n = length payload in
    let room : offset + n ≤ length bytes =
      omega (arith, length-drop offset bytes, ap length here, length-append payload rest) in
    rw
      (
        le→leb (offset + n) (length bytes) room,
        le→leb offset (offset + n) (omega arith),
        here,
        add_sub offset n,
        take-length-append payload rest,
      )
      refl
  where
    add_sub : (a b : ℕ) → a + b - a ≡ b
    add_sub a b = omega arith

-- Reading the extensions and then the payload, from behind the header on.
read-body :
    (has : Bool) (es : List Extension) (bytes payload rest : List ℕ) (offset n : ℕ)
    → n ≡ length payload
    → FitsChain es
    → (has ≡ false → es ≡ [])
    → drop offset bytes ≡ body has es (payload ++ rest)
    → offset ≤ length bytes
    → (stop : ℕ) × (read_chain has bytes offset ≡ ok (es, stop))
      × (read_payload bytes stop n ≡ ok payload)
read-body false es bytes payload rest offset n e fits announced here within =
    (offset, rw (announced refl) refl, rw e (read-payload bytes payload rest offset here within))
read-body true es bytes payload rest offset n e fits announced here within =
    let room : length es < length bytes + 1 =
      omega
        (arith, length-le-chain es (payload ++ rest), ap length here, length-drop offset bytes) in
    let (stop, found, behind, inside) =
      read-chain es (length bytes + 1) bytes (payload ++ rest) offset [] fits room here in
    (stop, found, rw e (read-payload bytes payload rest stop behind inside))

-- The bytes of a frame: its header, then what stands behind it.
pub encode-header-body :
    (f : Frame) (o : Option LongHeader) (rest : List ℕ)
    → f.long_header ≡ o
    → encode_frame f ++ rest
      ≡ encode_header o f.header [] ++ body f.header.has_extensions f.extensions (f.payload ++ rest)
unfolding encode_frame
encode-header-body f o rest e =
    write-body f.header.has_extensions f.extensions (encode_header f.long_header f.header [])
      f.payload rest
    ∙ ap
        (λ o'.
          encode_header o' f.header []
          ++ body f.header.has_extensions f.extensions (f.payload ++ rest))
        e

-- The second byte sends a frame to the decoder of its kind.
decode-short_kind :
    (h : ShortHeader) (rest : List ℕ)
    → FitsHeader h
    → decode_frame (encode_short_header h [] ++ rest)
      ≡ decode_short_frame (encode_short_header h [] ++ rest)
unfolding decode_frame encode_short_header
decode-short_kind h rest w = rw (short_byte1_kind h w) refl

decode-long_kind :
    (l : LongHeader) (rest : List ℕ)
    → FitsHeader l.short
    → decode_frame (encode_long_header l [] ++ rest)
      ≡ decode_long_frame (encode_long_header l [] ++ rest)
unfolding decode_frame encode_long_header
decode-long_kind l rest w = rw (long_byte1_kind l.short w) refl

drop-short_header :
    (h : ShortHeader) (rest : List ℕ)
    → (drop 16 (encode_short_header h [] ++ rest) ≡ rest)
      × (16 ≤ length (encode_short_header h [] ++ rest))
unfolding encode_short_header
drop-short_header h rest = (refl, omega arith)

drop-long_header :
    (l : LongHeader) (rest : List ℕ)
    → (drop 24 (encode_long_header l [] ++ rest) ≡ rest)
      × (24 ≤ length (encode_long_header l [] ++ rest))
unfolding encode_long_header
drop-long_header l rest = (refl, omega arith)

-- A frame with a short header whose fields fit the format, with its payload's true length and any
-- extensions that it announces, is decoded from its encoding, whatever bytes follow.
pub decode-encode_short_frame :
    (f : Frame) (rest : List ℕ)
    → FitsFrame f
    → f.long_header ≡ none
    → decode_frame (encode_frame f ++ rest) ≡ ok f
unfolding decode_short_frame
decode-encode_short_frame f rest w short =
    let h = f.header in
    let behind = body h.has_extensions f.extensions (f.payload ++ rest) in
    let bytes = encode_short_header h [] ++ behind in
    let (stop, chain_read, payload_read) =
      read-body h.has_extensions f.extensions bytes f.payload rest 16 h.length w.length_exact
        w.chain_fits w.announced (drop-short_header h behind).0 (drop-short_header h behind).1 in
    ap decode_frame (encode-header-body f none rest short)
    ∙ decode-short_kind h behind w.header_fits
    ∙ rw (decode-encode_short_header h behind w.header_fits, chain_read, payload_read) (cc short)

abbrev pub long_frame : LongHeader → List Extension → List ℕ → Frame
long_frame l es payload = record {
  long_header = some l;
  header = l.short;
  extensions = es;
  payload = payload;
}

pub decode-encode_long :
    (l : LongHeader) (es : List Extension) (payload rest : List ℕ)
    → FitsFrame (long_frame l es payload)
    → requires_long_header l.short.frame_type ≡ true
    → l.source_connection_id < 2 ^ 64
    → decode_frame (encode_frame (long_frame l es payload) ++ rest) ≡ ok (long_frame l es payload)
unfolding decode_long_frame
decode-encode_long l es payload rest w type source =
    let h = l.short in
    let behind = body h.has_extensions es (payload ++ rest) in
    let bytes = encode_long_header l [] ++ behind in
    let (stop, chain_read, payload_read) =
      read-body h.has_extensions es bytes payload rest 24 h.length w.length_exact w.chain_fits
        w.announced (drop-long_header l behind).0 (drop-long_header l behind).1 in
    ap decode_frame (encode-header-body (long_frame l es payload) (some l) rest refl)
    ∙ decode-long_kind l behind w.header_fits
    ∙ rw (decode-encode_long_header l behind w.header_fits source, type, chain_read, payload_read)
        refl

-- A frame with a long header of a handshake type, whose fields fit the format and whose two copies
-- of the short header are the same, is decoded from its encoding, whatever bytes follow.
pub decode-encode_long_frame :
    (f : Frame) (l : LongHeader) (rest : List ℕ)
    → FitsFrame f
    → FitsLong f l
    → decode_frame (encode_frame f ++ rest) ≡ ok f
decode-encode_long_frame f l rest w v =
    let same : long_frame l f.extensions f.payload ≡ f = cc (v.is_long, v.same_header) in
    subst (λ g. decode_frame (encode_frame g ++ rest) ≡ ok g) same
      (decode-encode_long l f.extensions f.payload rest (subst FitsFrame (sym same) w) v.long_type
        v.source_fits)
