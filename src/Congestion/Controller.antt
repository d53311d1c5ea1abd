-- ===== src/Congestion/Controller.antt =====
-- aether-core/src/congestion.rs: `CongestionController`. An `Instant` is a number of nanoseconds. A
-- gain is a number of hundredths. A product of a window and a gain is taken exactly, as the f64 of
-- the source is below 2^48 bytes; the u64 products and sums wrap around, as in a release build.
use aether_protocol.Prelude.{
  ℕ, ◌*◌, ◌-◌, ◌/◌, ◌%◌, ◌^◌, Bool, ◌&&◌, not, List, [], ◌∷◌, ◌++◌, ltb, leb, if◌then◌else◌,
}

pub data CongestionState : Type 0 where
  startup probe drain steady : CongestionState

-- `rtt_window` holds the samples of the last ten seconds, each with the time of its arrival.
pub record CongestionController : Type 0 where
  pub cwnd : ℕ
  pub min_rtt : ℕ
  pub max_bw : ℕ
  pub gain : ℕ
  pub state : CongestionState
  pub last_update : ℕ
  pub rtt_window : List (ℕ × ℕ)

unfoldable pub new_congestion_controller : ℕ → ℕ → CongestionController
new_congestion_controller now initial_cwnd = record {
  cwnd = initial_cwnd;
  min_rtt = 2 ^ 64 - 1;
  max_bw = 0;
  gain = 289;
  state = startup;
  last_update = now;
  rtt_window = [];
}

-- `now.duration_since(t).as_secs() < 10`; `duration_since` stops at zero.
abbrev pub is_recent : ℕ → ℕ → Bool
is_recent now at = ltb ((now - at) / 10 ^ 9) 10

-- `retain`.
unfoldable pub retain_recent : ℕ → List (ℕ × ℕ) → List (ℕ × ℕ)
retain_recent now [] = []
retain_recent now ((rtt, at) ∷ samples) =
    let rest = retain_recent now samples in if is_recent now at then (rtt, at) ∷ rest else rest

-- `iter().map(…).min()` of a window that starts with `least`.
unfoldable pub least_of : ℕ → List (ℕ × ℕ) → ℕ
least_of least [] = least
least_of least ((rtt, at) ∷ samples) = least_of (if ltb rtt least then rtt else least) samples

-- The minimum over the window, if it has a sample.
abbrev pub window_min : ℕ → List (ℕ × ℕ) → ℕ
window_min min_rtt [] = min_rtt
window_min min_rtt ((rtt, at) ∷ samples) = least_of rtt samples

abbrev pub observe_rtt : ℕ → ℕ → CongestionController → CongestionController
observe_rtt rtt now cc =
    let lowered = if ltb rtt cc.min_rtt then rtt else cc.min_rtt in
    let window = retain_recent now cc.rtt_window ++ ((rtt, now) ∷ []) in
    record cc { min_rtt = window_min lowered window; rtt_window = window }

abbrev pub delivery_rate : ℕ → ℕ → ℕ → ℕ
delivery_rate bytes_acked rtt max_bw =
    if ltb 0 rtt then bytes_acked * 1000000 % 2 ^ 64 / rtt else max_bw

abbrev pub observe_rate : ℕ → ℕ → CongestionController → CongestionController
observe_rate bytes_acked rtt cc =
    let rate = delivery_rate bytes_acked rtt cc.max_bw in
    if ltb cc.max_bw rate then record cc { max_bw = rate } else cc

-- The bandwidth-delay product, in bytes.
abbrev pub bdp : CongestionController → ℕ
bdp cc = cc.max_bw * cc.min_rtt % 2 ^ 64 / 1000000

abbrev pub grown : ℕ → ℕ
grown cwnd = cwnd * 11 / 10

-- The `match` on the state.
abbrev pub update_cwnd : CongestionState → CongestionController → CongestionController
update_cwnd startup cc =
    let cwnd = grown cc.cwnd in
    if ltb 0 cc.max_bw && leb (bdp cc) cwnd
    then record cc { cwnd = cwnd; state = drain; gain = 75 }
    else record cc { cwnd = cwnd }
update_cwnd probe cc = record cc { gain = 125; cwnd = bdp cc * 125 / 100 }
update_cwnd drain cc = record cc { gain = 75; cwnd = bdp cc * 75 / 100; state = probe }
update_cwnd steady cc = record cc { cwnd = bdp cc }

unfoldable pub on_ack : ℕ → ℕ → ℕ → CongestionController → CongestionController
on_ack bytes_acked rtt now cc =
    let cc = observe_rate bytes_acked rtt (observe_rtt rtt now cc) in
    let cc = update_cwnd cc.state cc in record cc { last_update = now }

-- A loss at a round trip above three times the least one is noise.
abbrev pub is_noise : ℕ → CongestionController → Bool
is_noise current_rtt cc = ltb (cc.min_rtt * 3 % 2 ^ 64) current_rtt

unfoldable pub on_loss : ℕ → CongestionController → CongestionController
on_loss current_rtt cc =
    if not (is_noise current_rtt cc)
    then record cc { cwnd = cc.cwnd / 2; state = steady; gain = 100 }
    else cc

unfoldable pub send_window : CongestionController → ℕ
send_window cc = cc.cwnd
