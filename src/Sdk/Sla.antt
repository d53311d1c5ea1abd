-- ===== src/Sdk/Sla.antt =====
-- aether-sdk/src/sla/mod.rs: the check of service levels. A percentage is a fraction, its numerator and
-- its denominator, where the source has an f64; the parsing of policies is the crates'.
use aether_protocol.Prelude.{
  ℕ, ◌*◌, ◌≤◌, ◌≡◌, ◌↔◌, arith, Bool, true, Option, List, [], ◌∷◌, ◌++◌, length, ltb, ◌==◌,
  if◌then◌else◌,
}

abbrev pub Pct : Type 0
Pct = ℕ × ℕ

-- `a > b`.
abbrev pub exceeds : Pct → Pct → Bool
exceeds (a, b) (c, d) = ltb (c * b) (a * d)

pub record SlaGuarantees : Type 0 where
  pub handshake_latency_p99_ms : ℕ
  pub throughput_min_mbps : ℕ
  pub availability_pct : Pct
  pub max_concurrent_streams : ℕ
  pub max_packet_loss_pct : Pct

pub record QosConfig : Type 0 where
  pub default_priority : ℕ
  pub priority_queueing : Bool

pub record SlaAlert : Type 0 where
  pub metric : List ℕ
  pub threshold : Pct
  pub action : List ℕ

pub record SlaPolicy : Type 0 where
  pub version : List ℕ
  pub provider : List ℕ
  pub guarantees : SlaGuarantees
  pub qos : Option QosConfig
  pub alerts : Option (List SlaAlert)

-- What a message says: the value measured and the limit.
pub data Violation : Type 0 where
  latency_exceeds throughput_below : ℕ → ℕ → Violation
  loss_exceeds : Pct → Pct → Violation

pub record SlaCompliance : Type 0 where
  pub compliant : Bool
  pub violations : List Violation

-- `if broken { violations.push(v) }`.
abbrev pub push_if : Bool → Violation → List Violation → List Violation
push_if broken v violations = if broken then violations ++ (v ∷ []) else violations

unfoldable pub check_compliance : SlaPolicy → ℕ → ℕ → Pct → SlaCompliance
check_compliance policy handshake_p99_ms throughput_mbps packet_loss_pct =
    let g = policy.guarantees in
    let first =
      push_if (ltb g.handshake_latency_p99_ms handshake_p99_ms)
        (latency_exceeds handshake_p99_ms g.handshake_latency_p99_ms) [] in
    let second =
      push_if (ltb throughput_mbps g.throughput_min_mbps)
        (throughput_below throughput_mbps g.throughput_min_mbps) first in
    let violations =
      push_if (exceeds packet_loss_pct g.max_packet_loss_pct)
        (loss_exceeds packet_loss_pct g.max_packet_loss_pct) second in
    record { compliant = length violations == 0; violations = violations }

-- A policy is satisfied exactly within its three limits.
check_compliance_lem :
    (policy : SlaPolicy) (handshake_p99_ms throughput_mbps : ℕ) (packet_loss_pct : Pct)
    → let g = policy.guarantees in
      ((check_compliance policy handshake_p99_ms throughput_mbps packet_loss_pct).compliant ≡ true)
      ↔ ((handshake_p99_ms ≤ g.handshake_latency_p99_ms)
          × (g.throughput_min_mbps ≤ throughput_mbps)
          × (packet_loss_pct.0 * g.max_packet_loss_pct.1
              ≤ g.max_packet_loss_pct.0 * packet_loss_pct.1))
unfolding check_compliance
check_compliance_lem policy handshake_p99_ms throughput_mbps packet_loss_pct = ground arith
