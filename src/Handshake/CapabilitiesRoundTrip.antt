-- ===== src/Handshake/CapabilitiesRoundTrip.antt =====
-- The capabilities, at the end of both hello messages, are read back from what was written.
use aether_protocol.Prelude.{
  ℕ, ◌+◌, ◌^◌, ◌<◌, ◌≡◌, refl, sym, ◌∙◌, arith, Bool, true, false, not, List, [], ◌∷◌, ◌++◌,
  append-nil, ◌==◌, if◌then◌else◌, drop,
}
use aether_protocol.Prelude.Bytes.{to_be, length-to_be}
use aether_protocol.Errors.{ok}
use aether_protocol.Handshake.Capabilities.{Capabilities, encode_capabilities, decode_capabilities}
use aether_protocol.Handshake.Reading.{index-at, skip, be_at-to_be}

-- The fields are numbers of the source's types.
pub record FitsCapabilities (c : Capabilities) : Type 0 where
  pub streams_fit : c.max_streams < 2 ^ 32
  pub data_fits : c.max_stream_data < 2 ^ 64
  pub idle_fits : c.idle_timeout_ms < 2 ^ 64

multipath_lem : (b : Bool) → not ((if b then 1 else 0) == 0) ≡ b
multipath_lem true = refl
multipath_lem false = refl

pub decode_capabilities-at :
    (c : Capabilities) (at : ℕ) (bytes : List ℕ)
    → FitsCapabilities c
    → drop at bytes ≡ encode_capabilities c
    → decode_capabilities bytes at ≡ ok c
unfolding encode_capabilities decode_capabilities
decode_capabilities-at c at bytes w e =
    rw
      (
        index-at at bytes mp (to_be 4 c.max_streams ++ r5) e,
        be_at-to_be 4 c.max_streams (at + 1) bytes r5 e1 (omega (arith, w.streams_fit)),
        be_at-to_be 8 c.max_stream_data (at + 5) bytes r13 e5 (omega (arith, w.data_fits)),
        index-at (at + 13) bytes c.ack_frequency (to_be 8 c.idle_timeout_ms) e13,
        be_at-to_be 8 c.idle_timeout_ms (at + 14) bytes [] e14 (omega (arith, w.idle_fits)),
        multipath_lem c.multipath,
      )
      refl
  where
    mp : ℕ
    mp = if c.multipath then 1 else 0

    r13 : List ℕ
    r13 = c.ack_frequency ∷ to_be 8 c.idle_timeout_ms

    r5 : List ℕ
    r5 = to_be 8 c.max_stream_data ++ r13

    e1 : drop (at + 1) bytes ≡ to_be 4 c.max_streams ++ r5
    e1 = skip at 1 (at + 1) bytes (mp ∷ []) (to_be 4 c.max_streams ++ r5) refl e refl

    e5 : drop (at + 5) bytes ≡ r5
    e5 =
        skip (at + 1) 4 (at + 5) bytes (to_be 4 c.max_streams) r5 (omega arith) e1
          (length-to_be 4 c.max_streams)

    e13 : drop (at + 13) bytes ≡ r13
    e13 =
        skip (at + 5) 8 (at + 13) bytes (to_be 8 c.max_stream_data) r13 (omega arith) e5
          (length-to_be 8 c.max_stream_data)

    e14 : drop (at + 14) bytes ≡ to_be 8 c.idle_timeout_ms ++ []
    e14 =
        skip (at + 13) 1 (at + 14) bytes (c.ack_frequency ∷ []) (to_be 8 c.idle_timeout_ms)
          (omega arith) e13 refl
        ∙ sym (append-nil (to_be 8 c.idle_timeout_ms))
