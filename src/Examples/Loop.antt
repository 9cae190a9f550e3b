-- ===== src/Examples/Loop.antt =====
-- Runs of the loop of cmd/sentinel/daemon.go, with duties that count what they did.
use slo_sentinel.Prelude.{ℕ, suc, ◌≡◌, refl, false, some, [], ◌∷◌, List, ok}
use slo_sentinel.Prelude.Int.{pos}
use slo_sentinel.Daemon.Loop.{
  Event, cancelled, poll_due, scan_due, finished, panicked, Duties, run, tick, handle, run_loop,
  first_round,
}

-- The state counts the rounds and the scans.
abbrev counting : Duties (ℕ × ℕ) ℕ
counting = record {
  run_one_poll = λ a s. ((suc s.0, s.1), false);
  maybe_weekly_cost = λ a s. s;
  maybe_daily_digest = λ a s. s;
  maybe_prune_predictions = λ a s. s;
  run_waste_scan = λ a s. (s.0, suc s.1);
}

abbrev three_events : List (Event ℕ)
three_events = poll_due 1 ∷ scan_due 2 ∷ cancelled ∷ []

two_rounds : run counting (pos 60) (0, 0) (ok (0, 0)) 0 three_events ≡ ((2, 2), some finished)
unfolding run run_loop first_round handle tick
two_rounds = refl

-- Without an interval the daemon panics after its first round and scan.
disabled_scan : run counting (pos 0) (0, 0) (ok (0, 0)) 0 three_events ≡ ((1, 1), some panicked)
unfolding run run_loop first_round
disabled_scan = refl
