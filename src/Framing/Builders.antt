-- ===== src/Framing/Builders.antt =====
-- The frames that the builders make fit the format, so they survive the wire.
use aether_protocol.Prelude.{
  ℕ, ◌%◌, ◌^◌, ◌<◌, ◌≡◌, refl, ◌∙◌, ap, sym, append-nil, arith, true, false, List, [], ◌∷◌, ◌++◌,
  length, All-append,
}
use aether_protocol.Prelude.Bytes.{to_be, length-to_be}
use aether_protocol.Errors.{ok}
use aether_protocol.Framing.Types.{FrameType, is_terminator, requires_long_header, path_id}
use aether_protocol.Framing.Extension.{Extension}
use aether_protocol.Framing.Header.{new_long_header}
use aether_protocol.Framing.Frame.{
  Frame, new_long, new_short, add_extension, encode_frame, decode_frame, new_path_challenge,
  new_path_response,
}
use aether_protocol.Framing.ChainRoundTrip.{FitsValue}
use aether_protocol.Framing.FrameRoundTrip.{
  FitsFrame, FitsLong, decode-encode_short_frame, decode-encode_long_frame,
}

-- The arguments of a builder that the header has room for.
pub record FitsFields (stream_id connection_id offset : ℕ) (payload : List ℕ) : Type 0 where
  pub stream_fits : stream_id < 2 ^ 18
  pub connection_fits : connection_id < 2 ^ 32
  pub offset_fits : offset < 2 ^ 32
  pub payload_fits : length payload < 2 ^ 32

new_short-FitsFrame :
    (t : FrameType) (stream_id connection_id offset : ℕ) (payload : List ℕ)
    → FitsFields stream_id connection_id offset payload
    → FitsFrame (new_short t stream_id connection_id offset payload)
unfolding new_short
new_short-FitsFrame t stream_id connection_id offset payload w = record {
  header_fits = record {
    version_fits = omega arith;
    stream_id_fits = w.stream_fits;
    offset_fits = w.offset_fits;
    length_fits = omega arith;
    connection_id_fits = w.connection_fits;
  };
  length_exact = omega (arith, w.payload_fits);
  chain_fits = tt;
  announced = λ e. refl;
}

add_extension-FitsFrame :
    (f : Frame) (e : Extension)
    → FitsFrame f
    → FitsValue e
    → is_terminator e.ext_type ≡ false
    → FitsFrame (add_extension f e)
unfolding add_extension
add_extension-FitsFrame f e w v t = record {
  header_fits = record {
    version_fits = w.header_fits.version_fits;
    stream_id_fits = w.header_fits.stream_id_fits;
    offset_fits = w.header_fits.offset_fits;
    length_fits = w.header_fits.length_fits;
    connection_id_fits = w.header_fits.connection_id_fits;
  };
  length_exact = w.length_exact;
  chain_fits = All-append _ f.extensions (e ∷ []) w.chain_fits ((v, t), tt);
  announced = λ h. cc;
}

-- A frame that `new_short` makes of fields in range is decoded from its encoding, and so is the
-- frame to which an extension was added, if its value fits and it is no terminator.
pub decode-new_short :
    (t : FrameType) (stream_id connection_id offset : ℕ) (payload : List ℕ) (e : Extension)
    → FitsFields stream_id connection_id offset payload
    → FitsValue e
    → is_terminator e.ext_type ≡ false
    → let f = new_short t stream_id connection_id offset payload in
      (decode_frame (encode_frame f) ≡ ok f)
      × (decode_frame (encode_frame (add_extension f e)) ≡ ok (add_extension f e))
decode-new_short t stream_id connection_id offset payload e w v nt =
    let f = new_short t stream_id connection_id offset payload in
    let fits = new_short-FitsFrame t stream_id connection_id offset payload w in
    (
      ap decode_frame (sym (append-nil (encode_frame f)))
          ∙ decode-encode_short_frame f [] fits (unfold new_short in refl),
      ap decode_frame (sym (append-nil (encode_frame (add_extension f e))))
          ∙ decode-encode_short_frame (add_extension f e) [] (add_extension-FitsFrame f e fits v nt)
              (unfold new_short add_extension in refl),
    )

-- With a connection id of 32 bits, the frame of a path challenge and that of its response are
-- decoded from their encodings.
pub decode-path_frames :
    (connection_id path nonce : ℕ)
    → connection_id < 2 ^ 32
    → (decode_frame (encode_frame (new_path_challenge connection_id path nonce))
        ≡ ok (new_path_challenge connection_id path nonce))
      × (decode_frame (encode_frame (new_path_response connection_id path nonce))
          ≡ ok (new_path_response connection_id path nonce))
unfolding new_path_challenge new_path_response
decode-path_frames connection_id path nonce h =
    let payload = to_be 8 nonce in
    let ext : Extension = record { ext_type = path_id; value = path ∷ [] } in
    let fits : FitsFields 0 connection_id 0 payload = record {
      stream_fits = omega arith;
      connection_fits = h;
      offset_fits = omega arith;
      payload_fits = omega (arith, length-to_be 8 nonce);
    } in
    (
      (decode-new_short FrameType.path_challenge 0 connection_id 0 payload ext fits (omega arith)
          refl).1,
      (decode-new_short FrameType.path_response 0 connection_id 0 payload ext fits (omega arith)
          refl).1,
    )

pub new_long-Fits :
    (t : FrameType) (stream_id dest source : ℕ) (payload : List ℕ)
    → FitsFields stream_id dest 0 payload
    → source < 2 ^ 64
    → requires_long_header t ≡ true
    → let f = new_long t stream_id dest source payload in
      let l = new_long_header t stream_id dest source false 0 (length payload % 2 ^ 32) in
      FitsFrame f × FitsLong f l
unfolding new_long new_long_header
new_long-Fits t stream_id dest source payload w s long = (
  record {
    header_fits = record {
      version_fits = omega arith;
      stream_id_fits = w.stream_fits;
      offset_fits = w.offset_fits;
      length_fits = omega arith;
      connection_id_fits = w.connection_fits;
    };
    length_exact = omega (arith, w.payload_fits);
    chain_fits = tt;
    announced = λ e. refl;
  },
  record { is_long = refl; same_header = refl; long_type = long; source_fits = s },
)

-- A frame of a handshake type that `new_long` makes of fields in range is decoded from its
-- encoding, with any bytes behind it.
pub decode-new_long :
    (t : FrameType) (stream_id dest source : ℕ) (payload rest : List ℕ)
    → FitsFields stream_id dest 0 payload
    → source < 2 ^ 64
    → requires_long_header t ≡ true
    → decode_frame (encode_frame (new_long t stream_id dest source payload) ++ rest)
      ≡ ok (new_long t stream_id dest source payload)
decode-new_long t stream_id dest source payload rest w s long =
    let (fits, fits_long) = new_long-Fits t stream_id dest source payload w s long in
    decode-encode_long_frame (new_long t stream_id dest source payload)
      (new_long_header t stream_id dest source false 0 (length payload % 2 ^ 32)) rest fits
      fits_long
