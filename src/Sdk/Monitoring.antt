-- ===== src/Sdk/Monitoring.antt =====
-- aether-sdk/src/monitoring/mod.rs: `AetherMetrics`. Every method is a list of orders to the recorder of
-- the crate `metrics`; a gauge and a histogram take whole numbers, in the unit that the name says, where
-- the source has an f64: a duration in thousandths of a second.
use aether_protocol.Prelude.{
  ℕ, ◌+◌, ◌-◌, ◌/◌, ◌^◌, ◌≡◌, refl, arith, Bool, true, false, List, [], ◌∷◌, ◌++◌, if◌then◌else◌,
}

pub data Metric : Type 0 where
  connections_active connections_total handshake_success_total : Metric
  handshake_failure_total handshake_duration_seconds streams_opened_total : Metric
  streams_closed_total stream_bytes_sent_total stream_bytes_received_total : Metric
  path_migrations_total path_rtt_microseconds key_rotations_total decrypt_errors_total : Metric

pub data Order : Type 0 where
  gauge_increment gauge_decrement counter_increment histogram_record : Metric → ℕ → Order

-- A call of a method.
pub data Call : Type 0 where
  connection_opened connection_closed stream_opened stream_closed : Call
  path_migrated key_rotated decrypt_error : Call
  bytes_sent bytes_received path_rtt : ℕ → Call
  handshake_completed : Bool → ℕ → Call

unfoldable pub orders : Call → List Order
orders connection_opened =
    gauge_increment connections_active 1 ∷ counter_increment connections_total 1 ∷ []
orders connection_closed = gauge_decrement connections_active 1 ∷ []
orders (handshake_completed success duration_ms) =
    (if success
      then counter_increment handshake_success_total 1
      else counter_increment handshake_failure_total 1)
    ∷ histogram_record handshake_duration_seconds duration_ms
    ∷ []
orders stream_opened = counter_increment streams_opened_total 1 ∷ []
orders stream_closed = counter_increment streams_closed_total 1 ∷ []
orders (bytes_sent count) = counter_increment stream_bytes_sent_total count ∷ []
orders (bytes_received count) = counter_increment stream_bytes_received_total count ∷ []
orders path_migrated = counter_increment path_migrations_total 1 ∷ []
orders (path_rtt rtt_us) = histogram_record path_rtt_microseconds rtt_us ∷ []
orders key_rotated = counter_increment key_rotations_total 1 ∷ []
orders decrypt_error = counter_increment decrypt_errors_total 1 ∷ []

-- `start_time.elapsed().as_secs()`, of times in nanoseconds.
unfoldable pub uptime_secs : ℕ → ℕ → ℕ
uptime_secs start_time now = (now - start_time) / 10 ^ 9

unfoldable pub all_orders : List Call → List Order
all_orders [] = []
all_orders (call ∷ calls) = orders call ++ all_orders calls

-- What the gauge of active connections was raised and lowered by.
abbrev raised : List Order → ℕ
raised [] = 0
raised (gauge_increment connections_active n ∷ os) = n + raised os
raised (_ ∷ os) = raised os

abbrev lowered : List Order → ℕ
lowered [] = 0
lowered (gauge_decrement connections_active n ∷ os) = n + lowered os
lowered (_ ∷ os) = lowered os

abbrev opened : List Call → ℕ
opened [] = 0
opened (connection_opened ∷ calls) = 1 + opened calls
opened (_ ∷ calls) = opened calls

abbrev closed : List Call → ℕ
closed [] = 0
closed (connection_closed ∷ calls) = 1 + closed calls
closed (_ ∷ calls) = closed calls

-- The gauge of active connections follows the connections that were opened and closed.
gauge_follows :
    (calls : List Call)
    → (raised (all_orders calls) ≡ opened calls) × (lowered (all_orders calls) ≡ closed calls)
unfolding all_orders orders
gauge_follows [] = (refl, refl)
gauge_follows (connection_opened ∷ calls) =
    let (up, down) = gauge_follows calls in (omega (arith, up), down)
gauge_follows (connection_closed ∷ calls) =
    let (up, down) = gauge_follows calls in (up, omega (arith, down))
gauge_follows (handshake_completed true duration_ms ∷ calls) = gauge_follows calls
gauge_follows (handshake_completed false duration_ms ∷ calls) = gauge_follows calls
gauge_follows (stream_opened ∷ calls) = gauge_follows calls
gauge_follows (stream_closed ∷ calls) = gauge_follows calls
gauge_follows (path_migrated ∷ calls) = gauge_follows calls
gauge_follows (key_rotated ∷ calls) = gauge_follows calls
gauge_follows (decrypt_error ∷ calls) = gauge_follows calls
gauge_follows (bytes_sent count ∷ calls) = gauge_follows calls
gauge_follows (bytes_received count ∷ calls) = gauge_follows calls
gauge_follows (path_rtt rtt_us ∷ calls) = gauge_follows calls
