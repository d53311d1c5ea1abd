-- ===== src/Congestion/Phases.antt =====
-- The phases of the controller: the steps between them, and what a congestion leaves.
use aether_protocol.Prelude.{
  ℕ, ◌*◌, ◌/◌, ◌^◌, ◌≤◌, ◌≡◌, inl, inr, refl, sym, ap, ap₂, ◌%◌, ◌∙◌, arith, false, Bool-cases,
  List, [], ◌∷◌, ◌&&◌, leb, ltb,
}
use mathlib.Core.Path.{subst}
use aether_protocol.Congestion.Window.{
  Event, handle, run, Event.acked, Event.lost, update_cwnd-Kept, observe_rate-Kept,
}
use aether_protocol.Congestion.Controller.{
  CongestionController, CongestionState, startup, probe, drain, steady, observe_rtt, observe_rate,
  update_cwnd, bdp, grown, on_ack, on_loss, is_noise,
}

-- The steps that the phases take: a full pipe ends the start, one acknowledgement drains it, and a
-- congestion ends everything.
pub data Step : CongestionState → CongestionState → Type 0 where
  stays : {s : CongestionState} → Step s s
  filled : Step startup drain
  drained : Step drain probe
  congested : {s : CongestionState} → Step s steady

pub update_cwnd-Step :
    (s : CongestionState) (c : CongestionController) → c.state ≡ s → Step s (update_cwnd s c).state
update_cwnd-Step startup c e = elim (Bool-cases (ltb 0 c.max_bw && leb (bdp c) (grown c.cwnd))) [
  | inl t ↦ rw t filled
  | inr t ↦ rw (t, e) stays
]
update_cwnd-Step probe c e = rw e stays
update_cwnd-Step drain c e = drained
update_cwnd-Step steady c e = rw e stays

-- An acknowledgement or a loss moves the phase by one step or leaves it.
pub handle-Step : (e : ℕ × Event) (c : CongestionController) → Step c.state (handle e c).state
unfolding handle on_ack on_loss
handle-Step (now, acked bytes rtt) c =
    let rated = observe_rate bytes rtt (observe_rtt rtt now c) in
    let (w, m, k, st) = observe_rate-Kept bytes rtt (observe_rtt rtt now c) in
    subst (λ s. Step s (update_cwnd rated.state rated).state) st
      (update_cwnd-Step rated.state rated refl)
handle-Step (now, lost rtt) c = elim (Bool-cases (is_noise rtt c)) [
  | inl t ↦ rw t stays
  | inr t ↦ rw t congested
]

-- The place of a phase in their order.
abbrev pub rank : CongestionState → ℕ
rank startup = 0
rank drain = 1
rank probe = 2
rank steady = 3

Step-rank : (s t : CongestionState) → Step s t → rank s ≤ rank t
Step-rank s t stays = omega arith
Step-rank s t filled = omega arith
Step-rank s t drained = omega arith
Step-rank startup t congested = omega arith
Step-rank drain t congested = omega arith
Step-rank probe t congested = omega arith
Step-rank steady t congested = omega arith

-- No phase comes back.
pub run-rank :
    (es : List (ℕ × Event)) (c : CongestionController) → rank c.state ≤ rank (run es c).state
unfolding run
run-rank [] c = omega arith
run-rank (e ∷ es) c =
    omega (arith, Step-rank c.state (handle e c).state (handle-Step e c), run-rank es (handle e c))

steady_of-rank : (s : CongestionState) → 3 ≤ rank s → s ≡ steady
steady_of-rank startup h = absurd (omega arith)
steady_of-rank drain h = absurd (omega arith)
steady_of-rank probe h = absurd (omega arith)
steady_of-rank steady h = refl

ack_steady :
    (bytes rtt now : ℕ) (c : CongestionController)
    → c.state ≡ steady
    → let after = on_ack bytes rtt now c in (after.state ≡ steady) × (after.cwnd ≡ bdp after)
unfolding on_ack
ack_steady bytes rtt now c e =
    let rated = observe_rate bytes rtt (observe_rtt rtt now c) in
    let (w, m, k, st) = observe_rate-Kept bytes rtt (observe_rtt rtt now c) in
    let kept = update_cwnd-Kept rated.state rated in
    let same = st ∙ e in
    (
      ap (λ s. (update_cwnd s rated).state) same ∙ same,
      ap (λ s. (update_cwnd s rated).cwnd) same
          ∙ sym (ap₂ (λ b r. b * r % 2 ^ 64 / 1000000) kept.bw_kept kept.min_kept),
    )

-- After a loss that is not taken for noise, whatever acknowledgements and losses follow, an
-- acknowledgement leaves the controller in its steady phase, with the bandwidth-delay product as
-- its window.
pub congested_for_good :
    (loss_rtt : ℕ) (es : List (ℕ × Event)) (bytes rtt now : ℕ) (c : CongestionController)
    → is_noise loss_rtt c ≡ false
    → let after = on_ack bytes rtt now (run es (on_loss loss_rtt c)) in
      (after.state ≡ steady) × (after.cwnd ≡ bdp after)
unfolding on_loss
congested_for_good loss_rtt es bytes rtt now c real =
    let lost_state : (on_loss loss_rtt c).state ≡ steady = rw real refl in
    let last : 3 ≤ rank (run es (on_loss loss_rtt c)).state =
      omega (arith, run-rank es (on_loss loss_rtt c), ap rank lost_state) in
    ack_steady bytes rtt now (run es (on_loss loss_rtt c)) (steady_of-rank _ last)
