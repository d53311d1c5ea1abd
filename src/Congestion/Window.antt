-- ===== src/Congestion/Window.antt =====
-- The round trip times that the controller looks at are those of the last ten seconds.
use aether_protocol.Prelude.{
  ℕ, ◌≤◌, ◌≡◌, inl, inr, refl, sym, ap, ◌∙◌, arith, Bool-cases, List, [], ◌∷◌, ◌++◌, ◌&&◌, leb, ltb,
  if◌then◌else◌,
}
use mathlib.Core.Path.{subst, subst₂}
use aether_protocol.Congestion.Samples.{
  IsLeast, retain-append, retain-retain, window_min-IsLeast, recent_now,
}
use aether_protocol.Congestion.Controller.{
  CongestionController, CongestionState, startup, probe, drain, steady, new_congestion_controller,
  observe_rtt, observe_rate, delivery_rate, update_cwnd, bdp, grown, retain_recent, on_ack, on_loss,
}

-- What happens to a controller: an acknowledgement of some bytes with its round trip time, or a loss
-- at a round trip time.
pub data Event : Type 0 where
  acked : ℕ → ℕ → Event
  lost : ℕ → Event

-- Each event with the time at which it comes.
unfoldable pub handle : ℕ × Event → CongestionController → CongestionController
handle (now, acked bytes rtt) cc = on_ack bytes rtt now cc
handle (now, lost rtt) cc = on_loss rtt cc

unfoldable pub run : List (ℕ × Event) → CongestionController → CongestionController
run [] cc = cc
run (e ∷ es) cc = run es (handle e cc)

-- Every sample that was ever taken, with nothing forgotten.
abbrev pub note : List (ℕ × ℕ) → ℕ × Event → List (ℕ × ℕ)
note h (now, acked bytes rtt) = h ++ ((rtt, now) ∷ [])
note h (now, lost rtt) = h

abbrev pub samples : List (ℕ × ℕ) → List (ℕ × Event) → List (ℕ × ℕ)
samples h [] = h
samples h (e ∷ es) = samples (note h e) es

-- The times do not go back from `t` on.
abbrev pub InOrder : ℕ → List (ℕ × Event) → Type 0
InOrder t [] = Unit {0}
InOrder t (e ∷ es) = (t ≤ e.0) × InOrder e.0 es

-- The window's update looks at the samples and leaves them as they are.
pub record Kept (before after : CongestionController) : Type 0 where
  pub window_kept : after.rtt_window ≡ before.rtt_window
  pub min_kept : after.min_rtt ≡ before.min_rtt
  pub bw_kept : after.max_bw ≡ before.max_bw

pub update_cwnd-Kept :
    (st : CongestionState) (cc : CongestionController) → Kept cc (update_cwnd st cc)
update_cwnd-Kept startup cc = elim (Bool-cases (ltb 0 cc.max_bw && leb (bdp cc) (grown cc.cwnd))) [
  | inl e ↦ rw e (record { window_kept = refl; min_kept = refl; bw_kept = refl })
  | inr e ↦ rw e (record { window_kept = refl; min_kept = refl; bw_kept = refl })
]
update_cwnd-Kept probe cc = record { window_kept = refl; min_kept = refl; bw_kept = refl }
update_cwnd-Kept drain cc = record { window_kept = refl; min_kept = refl; bw_kept = refl }
update_cwnd-Kept steady cc = record { window_kept = refl; min_kept = refl; bw_kept = refl }

pub observe_rate-Kept :
    (bytes rtt : ℕ) (cc : CongestionController)
    → let after = observe_rate bytes rtt cc in
      (after.rtt_window ≡ cc.rtt_window)
      × (after.min_rtt ≡ cc.min_rtt)
      × (after.cwnd ≡ cc.cwnd)
      × (after.state ≡ cc.state)
observe_rate-Kept bytes rtt cc =
    elim (Bool-cases (ltb cc.max_bw (delivery_rate bytes rtt cc.max_bw))) [
      | inl e ↦ rw e (refl, refl, refl, refl)
      | inr e ↦ rw e (refl, refl, refl, refl)
    ]

-- An acknowledgement, for the window and the least round trip time.
pub on_ack-window :
    (bytes rtt now : ℕ) (cc : CongestionController)
    → let after = on_ack bytes rtt now cc in
      (after.rtt_window ≡ retain_recent now cc.rtt_window ++ ((rtt, now) ∷ []))
      × IsLeast after.min_rtt after.rtt_window
unfolding on_ack
on_ack-window bytes rtt now cc =
    let seen = observe_rtt rtt now cc in
    let rated = observe_rate bytes rtt seen in
    let (w, m, c, st) = observe_rate-Kept bytes rtt seen in
    let kept = update_cwnd-Kept rated.state rated in
    let window = retain_recent now cc.rtt_window ++ ((rtt, now) ∷ []) in
    let lowered = if ltb rtt cc.min_rtt then rtt else cc.min_rtt in
    let same = kept.window_kept ∙ w in
    (
      same,
      subst₂ IsLeast (sym (kept.min_kept ∙ m)) (sym same)
          (window_min-IsLeast lowered (retain_recent now cc.rtt_window) (rtt, now)),
    )

-- The window holds what a pruning at some time up to `bound` leaves of the history.
record Tracks (bound : ℕ) (cc : CongestionController) (h : List (ℕ × ℕ)) : Type 0 where
  pruned : ℕ
  pruned_before : pruned ≤ bound
  window : cc.rtt_window ≡ retain_recent pruned h

acked-window :
    (bound bytes rtt now : ℕ) (cc : CongestionController) (h : List (ℕ × ℕ))
    → Tracks bound cc h
    → bound ≤ now
    → (on_ack bytes rtt now cc).rtt_window ≡ retain_recent now (h ++ ((rtt, now) ∷ []))
acked-window bound bytes rtt now cc h t le =
    (on_ack-window bytes rtt now cc).0
    ∙ ap (λ w. retain_recent now w ++ ((rtt, now) ∷ [])) t.window
    ∙ ap (λ w. w ++ ((rtt, now) ∷ []))
        (retain-retain t.pruned now h (omega (arith, t.pruned_before)))
    ∙ sym (
        retain-append now h ((rtt, now) ∷ [])
        ∙ ap (λ w. retain_recent now h ++ w) (recent_now rtt now))

on_loss-window : (rtt : ℕ) (cc : CongestionController) → (on_loss rtt cc).rtt_window ≡ cc.rtt_window
unfolding on_loss
on_loss-window rtt cc = ground arith

handle-Tracks :
    (bound : ℕ) (e : ℕ × Event) (cc : CongestionController) (h : List (ℕ × ℕ))
    → Tracks bound cc h
    → bound ≤ e.0
    → Tracks e.0 (handle e cc) (note h e)
unfolding handle
handle-Tracks bound (now, acked bytes rtt) cc h t le = record {
  pruned = now;
  pruned_before = omega arith;
  window = acked-window bound bytes rtt now cc h t le;
}
handle-Tracks bound (now, lost rtt) cc h t le = record {
  pruned = t.pruned;
  pruned_before = omega (arith, t.pruned_before);
  window = on_loss-window rtt cc ∙ t.window;
}

-- The time of the last event.
abbrev pub last_time : ℕ → List (ℕ × Event) → ℕ
last_time t [] = t
last_time t (e ∷ es) = last_time e.0 es

run-Tracks :
    (bound : ℕ) (es : List (ℕ × Event)) (cc : CongestionController) (h : List (ℕ × ℕ))
    → Tracks bound cc h
    → InOrder bound es
    → Tracks (last_time bound es) (run es cc) (samples h es)
unfolding run
run-Tracks bound [] cc h t o = t
run-Tracks bound (e ∷ es) cc h t o =
    run-Tracks e.0 es (handle e cc) (note h e) (handle-Tracks bound e cc h t o.0) o.1

-- From a new controller, after any acknowledgements and losses in the order of time, an
-- acknowledgement leaves the window with exactly those samples of the whole history, this one
-- included, that were taken within the last ten seconds, and `min_rtt` is the least of them.
pub run-IsLeast :
    (start initial_cwnd : ℕ) (es : List (ℕ × Event)) (bytes rtt now : ℕ)
    → InOrder start es
    → last_time start es ≤ now
    → let after = on_ack bytes rtt now (run es (new_congestion_controller start initial_cwnd)) in
      let h = samples [] es ++ ((rtt, now) ∷ []) in
      (after.rtt_window ≡ retain_recent now h) × IsLeast after.min_rtt (retain_recent now h)
unfolding new_congestion_controller retain_recent
run-IsLeast start initial_cwnd es bytes rtt now o le =
    let first : Tracks start (new_congestion_controller start initial_cwnd) [] = record {
      pruned = start;
      pruned_before = omega arith;
      window = refl;
    } in
    let before = run es (new_congestion_controller start initial_cwnd) in
    let same =
      acked-window (last_time start es) bytes rtt now before (samples [] es)
        (run-Tracks start es (new_congestion_controller start initial_cwnd) [] first o) le in
    (
      same,
      subst (IsLeast (on_ack bytes rtt now before).min_rtt) same
          (on_ack-window bytes rtt now before).1,
    )
