-- ===== src/Congestion/Startup.antt =====
-- The first phase ends on a link that keeps to its limits.
use aether_protocol.Prelude.{
  ℕ, ◌+◌, ◌*◌, ◌/◌, ◌≤◌, ◌<◌, ◌≡◌, ◌≢◌, ◌⊎◌, inl, inr, refl, ap, ◌∙◌, arith, false, Bool-cases,
  List, [], ◌∷◌, ◌++◌, All, ◌&&◌, leb, ltb, length,
}
use mathlib.Core.Path.{subst}
use native.Mathlib.Nat.{mul-le-mul}
use aether_protocol.Congestion.Phases.{rank, run-rank}
use aether_protocol.Congestion.Window.{
  Event, handle, run, on_ack-window, Event.acked, Event.lost, update_cwnd-Kept, observe_rate-Kept,
}
use aether_protocol.Congestion.Controller.{
  CongestionController, startup, drain, new_congestion_controller, observe_rtt, observe_rate,
  delivery_rate, update_cwnd, bdp, grown, retain_recent, on_ack,
}

newest_below :
    (m : ℕ) (xs : List (ℕ × ℕ)) (s : ℕ × ℕ) → All (λ x. m ≤ x.0) (xs ++ (s ∷ [])) → m ≤ s.0
newest_below m [] s h = h.0
newest_below m (x ∷ xs) s h = newest_below m xs s h.1

on_ack-min_rtt :
    (bytes rtt now : ℕ) (c : CongestionController) → (on_ack bytes rtt now c).min_rtt ≤ rtt
on_ack-min_rtt bytes rtt now c =
    let after = on_ack bytes rtt now c in
    let (window, least) = on_ack-window bytes rtt now c in
    newest_below after.min_rtt (retain_recent now c.rtt_window) (rtt, now)
      (subst (All (λ x. after.min_rtt ≤ x.0)) window least.below)

-- An acknowledgement of a link that carries at most `top` bytes a second, at a round trip of at most
-- `longest` microseconds.
pub record IsWithin (top longest bytes rtt : ℕ) : Type 0 where
  pub takes_time : 0 < rtt
  pub rtt_le : rtt ≤ longest
  pub carries : 0 < delivery_rate bytes rtt 0
  pub rate_le : delivery_rate bytes rtt 0 ≤ top

abbrev pub OnLink : ℕ → ℕ → ℕ × Event → Type 0
OnLink top longest (now, acked bytes rtt) = IsWithin top longest bytes rtt
OnLink top longest (now, lost rtt) = ⊥

rate_within :
    (top longest bytes rtt : ℕ) (c : CongestionController)
    → IsWithin top longest bytes rtt
    → c.max_bw ≤ top
    → (0 < (observe_rate bytes rtt c).max_bw) × ((observe_rate bytes rtt c).max_bw ≤ top)
rate_within top longest bytes rtt c h le = ground (arith, h.takes_time, h.carries, h.rate_le)

fill :
    (c : CongestionController)
    → 0 < c.max_bw
    → ((update_cwnd startup c).state ≡ drain)
      ⊎ (((update_cwnd startup c).state ≡ c.state)
          × ((update_cwnd startup c).cwnd ≡ grown c.cwnd)
          × (grown c.cwnd < bdp c))
fill c pos = elim (Bool-cases (ltb 0 c.max_bw && leb (bdp c) (grown c.cwnd))) [
  | inl t ↦ rw t (inl refl)
  | inr t ↦ rw t (inr (refl, refl, short t))
]
  where
    short : ltb 0 c.max_bw && leb (bdp c) (grown c.cwnd) ≡ false → grown c.cwnd < bdp c
    short t = ground (arith, pos, t)

-- The bandwidth-delay product of a link, in bytes.
abbrev pub pipe : ℕ → ℕ → ℕ
pipe top longest = top * longest / 1000000

-- The controller is past the start, or its window has grown and is still below the pipe.
data Progress (top longest before : ℕ) (c : CongestionController) : Type 0 where
  left : c.state ≡ drain → Progress top longest before c
  grew :
      c.state ≡ startup
      → before < c.cwnd
      → c.cwnd < pipe top longest
      → c.max_bw ≤ top
      → Progress top longest before c

ack-Progress :
    (top longest bytes rtt now : ℕ) (c : CongestionController)
    → IsWithin top longest bytes rtt
    → c.state ≡ startup
    → 10 ≤ c.cwnd
    → c.max_bw ≤ top
    → Progress top longest c.cwnd (on_ack bytes rtt now c)
unfolding on_ack
ack-Progress top longest bytes rtt now c h start wide le =
    let seen = observe_rtt rtt now c in
    let rated = observe_rate bytes rtt seen in
    let (w, m, k, st) = observe_rate-Kept bytes rtt seen in
    let (pos, top_le) = rate_within top longest bytes rtt seen h le in
    let begins = st ∙ start in
    let kept = update_cwnd-Kept rated.state rated in
    let rtt_le : rated.min_rtt ≤ longest =
      omega (arith, on_ack-min_rtt bytes rtt now c, kept.min_kept, h.rtt_le) in
    elim (fill rated pos) [
      | inl e ↦ left (ap (λ s. (update_cwnd s rated).state) begins ∙ e)
      | inr (e, g, below) ↦
          let width = ap (λ s. (update_cwnd s rated).cwnd) begins ∙ g in
          grew (ap (λ s. (update_cwnd s rated).state) begins ∙ e ∙ begins)
            (omega (arith, width, k, wide)) (omega (arith, width, below, mul-le-mul top_le rtt_le))
            (omega (arith, kept.bw_kept, top_le))
    ]

acks_end :
    (top longest : ℕ) (e : ℕ × Event) (es : List (ℕ × Event)) (c : CongestionController)
    → All (OnLink top longest) (e ∷ es)
    → c.state ≡ startup
    → 10 ≤ c.cwnd
    → c.max_bw ≤ top
    → pipe top longest ≤ c.cwnd + length (e ∷ es)
    → 1 ≤ rank (run (e ∷ es) c).state
unfolding run handle
acks_end top longest (now, lost rtt) es c h start wide le enough = absurd h.0
acks_end top longest (now, acked bytes rtt) [] c h start wide le enough =
    elim (ack-Progress top longest bytes rtt now c h.0 start wide le) [
      | left e ↦ rw e (omega arith)
      | grew e a b l ↦ omega (arith, enough, a, b)
    ]
acks_end top longest (now, acked bytes rtt) (f ∷ es) c h start wide le enough =
    let after = on_ack bytes rtt now c in
    elim (ack-Progress top longest bytes rtt now c h.0 start wide le) [
      | left e ↦ omega (arith, run-rank (f ∷ es) after, ap rank e)
      | grew e a b l ↦
          acks_end top longest f es after h.1 e (omega arith) l (omega (arith, enough, a))
    ]

-- A new controller with a window of 10 bytes or more is given acknowledgements only, at least one,
-- each with a round trip time between 1 and a longest one and a delivery rate between 1 and a
-- highest one. If the window at the start and the number of acknowledgements together reach the
-- product of that rate and that time, in bytes, the controller is no longer in its first phase.
pub acks_end_startup :
    (start initial_cwnd top longest : ℕ) (es : List (ℕ × Event))
    → All (OnLink top longest) es
    → 10 ≤ initial_cwnd
    → 0 < length es
    → pipe top longest ≤ initial_cwnd + length es
    → (run es (new_congestion_controller start initial_cwnd)).state ≢ startup
unfolding new_congestion_controller
acks_end_startup start initial_cwnd top longest [] h wide some_acks enough =
    λ e. omega (arith, some_acks)
acks_end_startup start initial_cwnd top longest (e ∷ es) h wide some_acks enough = λ same. omega (
  arith,
  ap rank same,
  acks_end top longest e es (new_congestion_controller start initial_cwnd) h refl wide (omega arith)
      enough,
)
