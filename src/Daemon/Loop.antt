-- ===== src/Daemon/Loop.antt =====
-- cmd/sentinel/daemon.go `Run`: the setup, the first round, and the loop over what happens next. The
-- servers and the tickers are the runtime's, and what they do comes as events; what a round, a scan
-- and the daily and weekly duties do is the other modules'. The reloads, which run beside the loop,
-- are left out.
use slo_sentinel.Prelude.{
  String, Bool, Option, none, some, List, [], ◌∷◌, if◌then◌else◌, Result, ok, err,
}
use slo_sentinel.Prelude.Int.{ℤ, pos, ltb_ℤ}

-- What wakes the `select`. A round and a scan carry what the services answer in them.
pub data Event (A : Type 0) : Type 0 where
  cancelled : Event A
  api_ended metrics_ended : String → Event A
  poll_due scan_due : A → Event A

-- How `Run` ends: with nil, with an error, or with a panic.
pub data Ended : Type 0 where
  finished : Ended
  setup_failed api_failed metrics_failed : String → Ended
  panicked : Ended

-- The steps of the daemon on its state `S`. A round also says whether the context was done.
pub record Duties (S A : Type 0) : Type 0 where
  pub run_one_poll : A → S → S × Bool
  pub maybe_weekly_cost : A → S → S
  pub maybe_daily_digest : A → S → S
  pub maybe_prune_predictions : A → S → S
  pub run_waste_scan : A → S → S

-- `wasteTicker`: `none` is the nil of a scan that is disabled.
pub data Ticker : Type 0 where
  every : ℤ → Ticker

abbrev pub waste_ticker : ℤ → Option Ticker
waste_ticker interval = if ltb_ℤ (pos 0) interval then some (every interval) else none

-- The field `C` of a ticker: on nil it is a nil pointer dereference.
abbrev pub channel_of : Option Ticker → Option Ended
channel_of none = some panicked
channel_of (some t) = none

abbrev pub resume : {S : Type 0} → S × Option Ended → (S → S × Option Ended) → S × Option Ended
resume (s, some ended) later = (s, some ended)
resume (s, none) later = later s

module _ {S A : Type 0} (d : Duties S A) where
  -- The case of a tick, in the order of the code.
  unfoldable pub tick : A → S × Bool → S × Option Ended
  tick a (s, cut) =
      if cut
      then (s, some finished)
      else (d.maybe_prune_predictions a (d.maybe_daily_digest a (d.maybe_weekly_cost a s)), none)

  -- The cases of the `select`.
  unfoldable pub handle : Event A → S → S × Option Ended
  handle cancelled s = (s, some finished)
  handle (api_ended e) s = (s, some (api_failed e))
  handle (metrics_ended e) s = (s, some (metrics_failed e))
  handle (poll_due a) s = tick a (d.run_one_poll a s)
  handle (scan_due a) s = (d.run_waste_scan a s, none)

  -- The loop; its end is `none` while it waits. At every turn the `select` evaluates the channels of
  -- its cases first, also `wasteTicker.C`.
  unfoldable pub run_loop : Option Ticker → List (Event A) → S → S × Option Ended
  run_loop ticker [] s = resume (s, channel_of ticker) (λ s'. (s', none))
  run_loop ticker (event ∷ events) s =
      resume (s, channel_of ticker) (λ s'. resume (handle event s') (run_loop ticker events))

  -- The first round, and the first scan where the round was not cut short.
  unfoldable pub first_round : A → S × Bool → S × Option Ended
  first_round a (s, cut) = if cut then (s, some finished) else (d.run_waste_scan a s, none)

  -- `Run`: `set_up` is what `setupSensors`, the catalog and the stored entries make of the state
  -- `s`, or the error of the setup; `a` what the services answer in the first round and scan.
  unfoldable pub run : ℤ → S → Result String S → A → List (Event A) → S × Option Ended
  run interval s (err e) a events = (s, some (setup_failed e))
  run interval s (ok ready) a events =
      resume (first_round a (d.run_one_poll a ready)) (run_loop (waste_ticker interval) events)
