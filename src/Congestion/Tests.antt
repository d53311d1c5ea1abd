-- ===== src/Congestion/Tests.antt =====
-- Concrete runs of the congestion controller.
use aether_protocol.Prelude.{
  ℕ, zero, suc, ◌*◌, ◌^◌, ◌<◌, ◌≡◌, ◌≢◌, refl, arith, ltb, true, false, List, [], ◌∷◌, ◌++◌,
}
use aether_protocol.Congestion.Controller.{
  CongestionController, startup, probe, steady, new_congestion_controller, bdp, on_ack, on_loss,
  is_noise, retain_recent, least_of,
}
use aether_protocol.Congestion.Samples.{IsLeast}
use aether_protocol.Congestion.Window.{Event, acked, lost, handle, run, samples, run-IsLeast}
use aether_protocol.Congestion.Phases.{congested_for_good}
use aether_protocol.Congestion.Startup.{acks_end_startup}

-- A second, in nanoseconds.
abbrev second : ℕ
second = 10 ^ 9

-- Round trips of 10, 30 and 20 milliseconds, the first of which is forgotten by the end.
abbrev history : List (ℕ × Event)
history = (0, acked 1400 10000) ∷ (5 * second, acked 1400 30000) ∷ (6 * second, lost 90001) ∷ []

run-IsLeast_example :
    let after = on_ack 1400 20000 (11 * second) (run history (new_congestion_controller 0 14000)) in
    let h = samples [] history ++ ((20000, 11 * second) ∷ []) in
    (after.rtt_window ≡ retain_recent (11 * second) h)
    × IsLeast after.min_rtt (retain_recent (11 * second) h)
run-IsLeast_example =
    run-IsLeast 0 14000 history 1400 20000 (11 * second)
      (omega arith, (omega arith, (omega arith, tt))) (omega arith)

abbrev busy : CongestionController
busy = record (new_congestion_controller 0 20000) {
  min_rtt = 50000;
  max_bw = 140000;
  state = probe;
}

congested_for_good_example :
    let after = on_ack 1400 40000 second (run history (on_loss 60000 busy)) in
    (after.state ≡ steady) × (after.cwnd ≡ bdp after)
congested_for_good_example = congested_for_good 60000 history 1400 40000 second busy refl

-- 1400 bytes in 10 milliseconds are 140000 bytes a second, which fill 1400 bytes.
acks_end_startup_example :
    (run ((0, acked 1400 10000) ∷ []) (new_congestion_controller 0 1399)).state ≢ startup
acks_end_startup_example =
    acks_end_startup 0 1399 140000 10000 ((0, acked 1400 10000) ∷ [])
      (
        record {
          takes_time = omega arith;
          rtt_le = omega arith;
          carries = omega arith;
          rate_le = omega arith;
        },
        tt,
      )
      (omega arith) (omega arith) (omega arith)

-- The tests of the source: a hundred acknowledgements, and the two kinds of loss.
abbrev acks : ℕ → ℕ → List (ℕ × Event)
acks zero i = []
acks (suc n) i = (i * 1000000, acked 1400 10000) ∷ acks n (suc i)

test_congestion_startup :
    let after = run (acks 100 0) (new_congestion_controller 0 14000) in
    (ltb 0 after.cwnd ≡ true) × (ltb 0 after.max_bw ≡ true)
unfolding run new_congestion_controller handle on_ack retain_recent least_of
test_congestion_startup = (refl, refl)

abbrev fresh : ℕ → ℕ → CongestionController
fresh cwnd min_rtt = record (new_congestion_controller 0 cwnd) { min_rtt = min_rtt }

test_loss_is_noise : (on_loss 50000 (fresh 14000 10000)).cwnd ≡ 14000
unfolding on_loss new_congestion_controller
test_loss_is_noise = refl

test_loss_is_congestion : (on_loss 60000 (fresh 100000 50000)).cwnd < 100000
unfolding on_loss new_congestion_controller
test_loss_is_congestion = omega arith

-- At first the least round trip time is 2^64 - 1, and its triple wraps around.
fresh_loss : is_noise 50000 (new_congestion_controller 0 14000) ≡ false
unfolding new_congestion_controller
fresh_loss = refl
