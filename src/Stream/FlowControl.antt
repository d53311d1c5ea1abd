-- ===== src/Stream/FlowControl.antt =====
-- aether-core/src/stream.rs: `FlowControl`, the window of one stream. A u64 sum wraps around, as in
-- a release build.
use aether_protocol.Prelude.{ℕ, ◌+◌, ◌-◌, ◌%◌, ◌^◌, Bool, ltb, leb, if◌then◌else◌}

pub record FlowControl : Type 0 where
  pub max_offset : ℕ
  pub received_offset : ℕ
  pub sent_offset : ℕ
  pub max_window : ℕ

unfoldable pub new_flow_control : ℕ → FlowControl
new_flow_control max_window = record {
  max_offset = max_window;
  received_offset = 0;
  sent_offset = 0;
  max_window = max_window;
}

unfoldable pub can_send : FlowControl → ℕ → Bool
can_send fc data_len = leb ((fc.sent_offset + data_len) % 2 ^ 64) fc.max_offset

-- The offset of the reserved bytes, cut to a u32.
unfoldable pub reserve_send : FlowControl → ℕ → FlowControl × ℕ
reserve_send fc data_len =
    (record fc { sent_offset = (fc.sent_offset + data_len) % 2 ^ 64 }, fc.sent_offset % 2 ^ 32)

unfoldable pub update_window : FlowControl → ℕ → FlowControl
update_window fc new_max =
    if ltb fc.max_offset new_max then record fc { max_offset = new_max } else fc

unfoldable pub received : FlowControl → ℕ → ℕ → FlowControl
received fc offset length =
    let end = offset + length in
    if ltb fc.received_offset end then record fc { received_offset = end } else fc

-- `saturating_sub`.
unfoldable pub available_window : FlowControl → ℕ
available_window fc = fc.max_offset - fc.sent_offset
