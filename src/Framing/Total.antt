-- ===== src/Framing/Total.antt =====
-- `Frame::decode` on any bytes: it returns, with a frame or an error, and never panics.
use aether_protocol.Prelude.{
  ℕ, zero, suc, ◌+◌, ◌-◌, ◌≤◌, ◌<◌, arith, Bool, true, false, List, [], ◌∷◌, ◌++◌, length, drop,
  ltb, leb, le→leb, leb→le, leb→gt, ltb→ge, Bool-cases, inl, inr,
}
use aether_protocol.Errors.{Error, ok, Returns, Ensures, or_error, index, slice}
use aether_protocol.Errors.Returns.{
  bind-Ensures, guard-Ensures, Ensures-ok, Ensures-Returns, if-Returns, or_error-Returns,
  index-Returns, slice-Returns,
}
use aether_protocol.Prelude.Bytes.{from_be}
use aether_protocol.Framing.Types.{
  ExtType, frame_type_from_u8, requires_long_header, ext_type_from_u8, is_terminator,
}
use aether_protocol.Framing.Extension.{
  Extension, read_value, decode_extension, read_extensions, or_terminator,
}
use aether_protocol.Framing.Header.{
  frame_type_raw, indices, be_at, decode_short_header, decode_long_header,
}
use aether_protocol.Framing.Frame.{
  read_chain, read_payload, decode_frame, decode_short_frame, decode_long_frame,
}

pub indices-Returns :
    (w : ℕ) (xs : List ℕ) (at : ℕ) → at + w ≤ length xs → Returns (indices w xs at)
indices-Returns zero xs at h = tt
indices-Returns (suc w) xs at h =
    bind-Ensures _ (index xs at) _ (index-Returns xs at (omega arith)) λ b _.
      bind-Ensures _ (indices w xs (at + 1)) _ (indices-Returns w xs (at + 1) (omega arith))
        λ bs _. tt

pub be_at-Returns : (w : ℕ) (xs : List ℕ) (at : ℕ) → at + w ≤ length xs → Returns (be_at w xs at)
be_at-Returns w xs at h = bind-Ensures _ (indices w xs at) _ (indices-Returns w xs at h) λ bs _. tt

pub decode_short_header-Returns : (bytes : List ℕ) → Returns (decode_short_header bytes)
unfolding decode_short_header
decode_short_header-Returns bytes = elim (Bool-cases (ltb (length bytes) 16)) [
  | inl e ↦ rw e tt
  | inr e ↦
      let h : 16 ≤ length bytes = ltb→ge (length bytes) 16 e in
      rw e (
        bind-Ensures _ (index bytes 0) _ (index-Returns bytes 0 (omega arith)) λ b0 _.
          bind-Ensures _ (index bytes 1) _ (index-Returns bytes 1 (omega arith)) λ b1 _.
            bind-Ensures _ (or_error (frame_type_from_u8 (frame_type_raw b0 b1)) _) _
              (or_error-Returns (frame_type_from_u8 (frame_type_raw b0 b1)) _)
              λ t _.
                bind-Ensures _ (be_at 2 bytes 2) _ (be_at-Returns 2 bytes 2 (omega arith)) λ lo _.
                  bind-Ensures _ (be_at 4 bytes 4) _ (be_at-Returns 4 bytes 4 (omega arith)) λ o _.
                    bind-Ensures _ (be_at 4 bytes 8) _ (be_at-Returns 4 bytes 8 (omega arith))
                      λ n _.
                        bind-Ensures _ (be_at 4 bytes 12) _ (be_at-Returns 4 bytes 12 (omega arith))
                          λ c _. tt)
]

pub decode_long_header-Returns : (bytes : List ℕ) → Returns (decode_long_header bytes)
unfolding decode_long_header
decode_long_header-Returns bytes = elim (Bool-cases (ltb (length bytes) 24)) [
  | inl e ↦ rw e tt
  | inr e ↦
      let h : 24 ≤ length bytes = ltb→ge (length bytes) 24 e in
      rw e (
        bind-Ensures _ (slice bytes 0 16) _ (slice-Returns bytes 0 16 (omega arith) (omega arith))
          λ head _.
            bind-Ensures _ (decode_short_header head) _ (decode_short_header-Returns head)
              λ short _.
                bind-Ensures _ (be_at 8 bytes 16) _ (be_at-Returns 8 bytes 16 (omega arith))
                  λ c _. tt)
]

read_value-Ensures :
    (t : ExtType) (len : ℕ) (bytes : List ℕ) → Ensures (λ r. 4 ≤ r.1) (read_value t len bytes)
read_value-Ensures t len bytes =
    guard-Ensures _ (leb (4 + len) (length bytes)) Error.protocol_violation _ λ room.
      bind-Ensures _ (slice bytes 4 (4 + len)) _
        (slice-Returns bytes 4 (4 + len) (omega arith) (leb→le (4 + len) (length bytes) room))
        λ v _. omega arith

-- Reading an extension returns, and one that is read takes four bytes at least.
pub decode_extension-Ensures : (bytes : List ℕ) → Ensures (λ r. 4 ≤ r.1) (decode_extension bytes)
unfolding decode_extension
decode_extension-Ensures bytes = elim (Bool-cases (ltb (length bytes) 4)) [
  | inl e ↦ rw e tt
  | inr e ↦
      let h : 4 ≤ length bytes = ltb→ge (length bytes) 4 e in
      rw e (
        bind-Ensures _ (index bytes 0) _ (index-Returns bytes 0 (omega arith)) λ b0 _.
          bind-Ensures _ (index bytes 1) _ (index-Returns bytes 1 (omega arith)) λ b1 _.
            bind-Ensures _ (index bytes 2) _ (index-Returns bytes 2 (omega arith)) λ b2 _.
              bind-Ensures _ (index bytes 3) _ (index-Returns bytes 3 (omega arith)) λ b3 _.
                read_value-Ensures (or_terminator (ext_type_from_u8 b0))
                  (from_be (0 ∷ b1 ∷ b2 ∷ b3 ∷ [])) bytes)
]

-- The loop over a chain ends: each round leaves fewer bytes, and the fuel outlasts them.
pub read_extensions-Returns :
    (fuel : ℕ) (bytes : List ℕ) (offset : ℕ) (acc : List Extension)
    → length bytes - offset < fuel
    → Returns (read_extensions fuel bytes offset acc)
unfolding read_extensions
read_extensions-Returns zero bytes offset acc h = absurd (omega arith)
read_extensions-Returns (suc fuel) bytes offset acc h =
    elim (Bool-cases (leb (length bytes) offset)) [
      | inl e ↦ rw e tt
      | inr e ↦
          let inside : offset < length bytes = leb→gt (length bytes) offset e in
          let tail = drop offset bytes in
          rw (e, le→leb offset (length bytes) (omega arith))
            (bind-Ensures _ (decode_extension tail) _
              (Ensures-Returns (λ r. 4 ≤ r.1) (decode_extension tail)
                (decode_extension-Ensures tail))
              λ r found.
                let progress : 4 ≤ r.1 =
                  Ensures-ok (λ q. 4 ≤ q.1) (decode_extension tail) (decode_extension-Ensures tail)
                    found in
                if-Returns (is_terminator r.0.ext_type) (ok (acc, offset + r.1)) _ tt (
                  read_extensions-Returns fuel bytes (offset + r.1) (acc ++ (r.0 ∷ []))
                    (omega arith)))
    ]

read_chain-Returns :
    (has : Bool) (bytes : List ℕ) (offset : ℕ) → Returns (read_chain has bytes offset)
read_chain-Returns true bytes offset =
    read_extensions-Returns (length bytes + 1) bytes offset [] (omega arith)
read_chain-Returns false bytes offset = tt

read_payload-Returns : (bytes : List ℕ) (offset n : ℕ) → Returns (read_payload bytes offset n)
read_payload-Returns bytes offset n =
    guard-Ensures _ (leb (offset + n) (length bytes)) Error.protocol_violation _ λ room.
      slice-Returns bytes offset (offset + n) (omega arith)
        (leb→le (offset + n) (length bytes) room)

decode_short_frame-Returns : (bytes : List ℕ) → Returns (decode_short_frame bytes)
unfolding decode_short_frame
decode_short_frame-Returns bytes =
    bind-Ensures _ (decode_short_header bytes) _ (decode_short_header-Returns bytes) λ h _.
      bind-Ensures _ (read_chain h.has_extensions bytes 16) _
        (read_chain-Returns h.has_extensions bytes 16)
        λ r _.
          bind-Ensures _ (read_payload bytes r.1 h.length) _
            (read_payload-Returns bytes r.1 h.length) λ p _. tt

decode_long_frame-Returns : (bytes : List ℕ) → Returns (decode_long_frame bytes)
unfolding decode_long_frame
decode_long_frame-Returns bytes =
    bind-Ensures _ (decode_long_header bytes) _ (decode_long_header-Returns bytes) λ l _.
      guard-Ensures _ (requires_long_header l.short.frame_type) Error.protocol_violation _ λ _.
        bind-Ensures _ (read_chain l.short.has_extensions bytes 24) _
          (read_chain-Returns l.short.has_extensions bytes 24)
          λ r _.
            bind-Ensures _ (read_payload bytes r.1 l.short.length) _
              (read_payload-Returns bytes r.1 l.short.length) λ p _. tt

-- On every list of bytes `decode` returns a frame or an error: no index or slice is out of range,
-- and the loop over the extensions ends.
pub decode_frame-Returns : (bytes : List ℕ) → Returns (decode_frame bytes)
unfolding decode_frame
decode_frame-Returns [] = tt
decode_frame-Returns (b ∷ bytes) =
    if-Returns _ (decode_long_frame (b ∷ bytes)) (decode_short_frame (b ∷ bytes))
      (decode_long_frame-Returns (b ∷ bytes)) (decode_short_frame-Returns (b ∷ bytes))
