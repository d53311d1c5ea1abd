-- ===== src/Framing/LostExtension.antt =====
-- Extensions that do not survive: one added to a frame with a long header, and whatever stands
-- behind an extension of a type that the receiver does not know.
use aether_protocol.Prelude.{
  ℕ, suc, ◌+◌, ◌%◌, ◌^◌, ◌≤◌, ◌<◌, ◌≡◌, refl, ◌∙◌, ap, sym, arith, true, false, some, none, List,
  [], ◌∷◌, ◌++◌, append-nil, length, take, drop, length-take, length-append, length-drop,
  take-append-drop, gt→leb, le→leb,
}
use aether_protocol.Errors.{ok}
use aether_protocol.Framing.Types.{FrameType, requires_long_header, ext_type_from_u8}
use aether_protocol.Framing.Extension.{
  Extension, encode_extension, extension_terminator, read_extensions,
}
use aether_protocol.Framing.Header.{LongHeader, encode_long_header, new_long_header}
use aether_protocol.Framing.Frame.{new_long, add_extension, encode_frame, decode_frame}
use aether_protocol.Framing.ChainRoundTrip.{chain, raw_extension, decode-raw}
use aether_protocol.Framing.FrameRoundTrip.{
  FitsFrame, long_frame, encode-header-body, decode-encode_long,
}
use aether_protocol.Framing.Builders.{FitsFields}

module _ (t : FrameType) (stream_id dest source : ℕ) (payload : List ℕ) where
  -- The header that `new_long` writes, before and after an extension is added to the frame.
  long : LongHeader
  long = new_long_header t stream_id dest source false 0 (length payload % 2 ^ 32)

  -- What the receiver takes for the payload.
  abbrev pub misread : Extension → List ℕ
  misread e = take (length payload) (chain (e ∷ []) payload)

  length-chain-ge : (e : Extension) → length payload ≤ length (chain (e ∷ []) payload)
  length-chain-ge e = omega (
    arith,
    length-append (encode_extension e []) (chain [] payload),
    length-append (encode_extension extension_terminator []) payload,
  )

  encode-added :
      (e : Extension)
      → encode_frame (add_extension (new_long t stream_id dest source payload) e)
        ≡ encode_frame (long_frame long [] (misread e))
          ++ drop (length payload) (chain (e ∷ []) payload)
  unfolding new_long new_long_header add_extension long
  encode-added e =
      let f = add_extension (new_long t stream_id dest source payload) e in
      let whole = chain (e ∷ []) payload in
      let n = length payload in
      sym (append-nil (encode_frame f))
      ∙ encode-header-body f (some long) [] refl
      ∙ ap (λ r. encode_long_header long [] ++ chain (e ∷ []) r) (append-nil payload)
      ∙ ap (λ r. encode_long_header long [] ++ r) (sym (take-append-drop n whole))
      ∙ sym (encode-header-body (long_frame long [] (misread e)) (some long) (drop n whole) refl)

-- A frame of a handshake type that `new_long` makes of fields in range, and to which an extension
-- was added, is decoded as the frame without it, with a payload misread from the extension's first
-- bytes.
pub add_extension-lost :
    (t : FrameType) (stream_id dest source : ℕ) (payload : List ℕ) (e : Extension)
    → FitsFields stream_id dest 0 payload
    → source < 2 ^ 64
    → requires_long_header t ≡ true
    → let f = new_long t stream_id dest source payload in
      decode_frame (encode_frame (add_extension f e))
      ≡ ok (record f { payload = misread t stream_id dest source payload e })
unfolding new_long new_long_header long
add_extension-lost t stream_id dest source payload e w s r =
    ap decode_frame (encode-added t stream_id dest source payload e)
    ∙ decode-encode_long (long t stream_id dest source payload) []
        (misread t stream_id dest source payload e) (drop (length payload) (chain (e ∷ []) payload))
        fits r s
  where
    fits : FitsFrame (
        long_frame
          (long t stream_id dest source payload)
          []
          (misread t stream_id dest source payload e))
    fits = record {
      header_fits = record {
        version_fits = omega arith;
        stream_id_fits = w.stream_fits;
        offset_fits = w.offset_fits;
        length_fits = omega arith;
        connection_id_fits = w.connection_fits;
      };
      length_exact = omega (
        arith,
        w.payload_fits,
        length-take (length payload) (chain (e ∷ []) payload),
        length-chain-ge t stream_id dest source payload e,
      );
      chain_fits = tt;
      announced = λ h. refl;
    }

-- At an extension of a type above 5, with a value of fewer than 2^24 bytes, the loop over a chain
-- stops with the extensions read so far and the offset behind this one, whatever follows.
unknown_type-ends_chain :
    (t fuel offset : ℕ) (value rest bytes : List ℕ) (acc : List Extension)
    → 5 < t
    → length value < 2 ^ 24
    → drop offset bytes ≡ raw_extension t value rest
    → read_extensions (suc fuel) bytes offset acc ≡ ok (acc, offset + (4 + length value))
unfolding read_extensions
unknown_type-ends_chain t fuel offset value rest bytes acc h fits here =
    let room : offset < length bytes = omega (arith, length-drop offset bytes, ap length here) in
    rw
      (
        gt→leb (length bytes) offset room,
        le→leb offset (length bytes) (omega arith),
        here,
        decode-raw t value rest fits,
        unknown t h,
      )
      refl
  where
    unknown : (t : ℕ) → 5 < t → ext_type_from_u8 t ≡ none
    unknown t h = unfold ext_type_from_u8 in ground arith
