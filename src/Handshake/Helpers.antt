-- ===== src/Handshake/Helpers.antt =====
-- aether-core/src/framing.rs: the free helpers that write and read numbers. The offset that a reader moves
-- is a result.
use aether_protocol.Prelude.{
  ℕ, suc, ◌+◌, ◌^◌, ◌<◌, ◌≡◌, refl, sym, ap, ◌∙◌, arith, false, List, ◌++◌, append_assoc,
  drop-length-append, length, length-append, drop, drop-drop, length-drop, ltb, ge→ltb,
  if◌then◌else◌,
}
use aether_protocol.Prelude.Bytes.{to_be}
use aether_protocol.Errors.{Error, Result, ok, err, ◌>>=◌}
use aether_protocol.Framing.Header.{be_at}
use aether_protocol.Handshake.Reading.{be_at-to_be}

unfoldable pub write_u64_be : List ℕ → ℕ → List ℕ
write_u64_be buf value = buf ++ to_be 8 value

unfoldable pub read_u64_be : List ℕ → ℕ → Result (ℕ × ℕ)
read_u64_be bytes offset =
    if ltb (length bytes) (offset + 8)
    then err Error.protocol_violation
    else do value ← be_at 8 bytes offset; ok (value, offset + 8)

unfoldable pub write_u32_be : List ℕ → ℕ → List ℕ
write_u32_be buf value = buf ++ to_be 4 value

unfoldable pub read_u32_be : List ℕ → ℕ → Result (ℕ × ℕ)
read_u32_be bytes offset =
    if ltb (length bytes) (offset + 4)
    then err Error.protocol_violation
    else do value ← be_at 4 bytes offset; ok (value, offset + 4)

-- There is room for what stands at an offset.
room :
    (bytes part rest : List ℕ) (offset n : ℕ)
    → drop offset bytes ≡ part ++ rest
    → length part ≡ suc n
    → ltb (length bytes) (offset + suc n) ≡ false
room bytes part rest offset n e l =
    ge→ltb (length bytes) (offset + suc n)
      (omega (arith, ap length e, length-drop offset bytes, length-append part rest))

read_u64_be-at :
    (bytes rest : List ℕ) (offset v : ℕ)
    → v < 2 ^ 64
    → drop offset bytes ≡ to_be 8 v ++ rest
    → read_u64_be bytes offset ≡ ok (v, offset + 8)
unfolding read_u64_be
read_u64_be-at bytes rest offset v h e =
    rw (room bytes (to_be 8 v) rest offset 7 e refl, be_at-to_be 8 v offset bytes rest e h) refl

read_u32_be-at :
    (bytes rest : List ℕ) (offset v : ℕ)
    → v < 2 ^ 32
    → drop offset bytes ≡ to_be 4 v ++ rest
    → read_u32_be bytes offset ≡ ok (v, offset + 4)
unfolding read_u32_be
read_u32_be-at bytes rest offset v h e =
    rw (room bytes (to_be 4 v) rest offset 3 e refl, be_at-to_be 4 v offset bytes rest e h) refl

-- A number of 64 bits and one of 32 are read back from where they were written.
read-write :
    (buf rest : List ℕ) (v w : ℕ)
    → v < 2 ^ 64
    → w < 2 ^ 32
    → let bytes = write_u32_be (write_u64_be buf v) w ++ rest in
      (read_u64_be bytes (length buf) ≡ ok (v, length buf + 8))
      × (read_u32_be bytes (length buf + 8) ≡ ok (w, length buf + 12))
unfolding write_u64_be write_u32_be
read-write buf rest v w h k =
    let bytes = buf ++ to_be 8 v ++ to_be 4 w ++ rest in
    let whole : bytes ≡ buf ++ (to_be 8 v ++ (to_be 4 w ++ rest)) =
      append_assoc (buf ++ to_be 8 v) (to_be 4 w) rest
      ∙ append_assoc buf (to_be 8 v) (to_be 4 w ++ rest) in
    let first : drop (length buf) bytes ≡ to_be 8 v ++ (to_be 4 w ++ rest) =
      ap (drop (length buf)) whole ∙ drop-length-append buf (to_be 8 v ++ (to_be 4 w ++ rest)) in
    (
      read_u64_be-at bytes (to_be 4 w ++ rest) (length buf) v h first,
      read_u32_be-at bytes rest (length buf + 8) w k
            (sym (drop-drop (length buf) 8 bytes) ∙ ap (drop 8) first)
          ∙ ap (λ n. ok (w, n)) (omega arith),
    )
