-- ===== src/Daemon/Weekly.antt =====
-- cmd/sentinel/daemon.go `estimateLines`, `capacityTrend` and `maybeWeeklyCost`, and `recentTail` of
-- api.go: the weekly summary of costs.
pub mod Once
use slo_sentinel.Prelude.{
  ℕ, ◌-◌, ◌*◌, ◌/◌, String, Bool, true, false, ◌||◌, Option, none, some, List, [], ◌∷◌, leb,
  if◌then◌else◌, length, drop, Result, ok, err, ◌>>=◌, ◌>>◌,
}
use slo_sentinel.Prelude.Int.{ℤ, pos, negsuc, ◌-ℤ◌}
use slo_sentinel.Prelude.Dict.{Dict, update}
use slo_sentinel.Prelude.Float.{Float}
use slo_sentinel.Query.{Sample, Series, Source}
use slo_sentinel.Budget.Types.{hour, second}
use slo_sentinel.Budget.Engine.{nought}
use slo_sentinel.Capacity.Defs.{Def}
use slo_sentinel.Capacity.Sensor.{last_sample}
use slo_sentinel.Store.States.{SensorState, set_state, get_state}
use slo_sentinel.Daemon.Round.{or_same, is_day}
use slo_sentinel.Cost.Days.{Date}
use slo_sentinel.Cost.Forecast.{DailySpend, EomProjection, sum_spends, estimate_rates, project_eom}
use slo_sentinel.Cost.Weekly.{GrowthRow, weekly_top_growth}
use slo_sentinel.Cost.Estimate.{UsageTemplate, UsageLine}

abbrev pub weekly_state_id : String
weekly_state_id = "__weekly_cost_summary__"

abbrev pub one_day : ℕ
one_day = 86400000000000

-- `now.AddDate(0, 0, -n)` in UTC, and `Truncate(24 * time.Hour)`, for times from 1970 on.
abbrev pub days_before : ℤ → ℕ → ℤ
days_before now n = now -ℤ pos (n * one_day)

pub truncate_day : ℤ → ℤ
truncate_day (pos n) = pos (n / one_day * one_day)
truncate_day (negsuc n) = negsuc n

-- `recentTail`.
pub recent_tail : {A : Type 0} → List A → ℕ → List A
recent_tail xs n = if leb (length xs) n then xs else drop (length xs - n) xs

-- A billing source: what it answers for a range of days.
abbrev pub Billing : Type 0 → Type 0
Billing F = ℤ → ℤ → Result String (List (DailySpend F))

-- The summary, without its text; the end of the bill is `none` where there is no bill.
pub record WeeklySummary (F : Type 0) : Type 0 where
  pub rows : List (GrowthRow F)
  pub trend : Dict F
  pub eom : EomProjection F
  pub confirmed : Option ℤ

module _ {F : Type 0} where
  -- A query that fails gives no spends.
  abbrev pub spends_or_none : Result String (List (DailySpend F)) → List (DailySpend F)
  spends_or_none (ok xs) = xs
  spends_or_none (err e) = []

  abbrev pub last_date : List (DailySpend F) → Option ℤ
  last_date [] = none
  last_date (s ∷ []) = some s.date
  last_date (s ∷ s' ∷ ss) = last_date (s' ∷ ss)

module _ ⦃fl : Float⦄ where
  open fl use {F, minus}

  abbrev pub last_value : Option (SensorState F) → F
  last_value none = nought
  last_value (some st) = st.last_value

  -- `estimateLines`.
  pub estimate_lines : List UsageTemplate → Dict (SensorState F) → List (UsageLine F)
  estimate_lines [] states = []
  estimate_lines (t ∷ ts) states =
      record { template = t; quantity = last_value (get_state t.sensor states) }
      ∷ estimate_lines ts states

  -- The change over a series of at least two samples.
  abbrev pub change_of : List (Sample F) → Option F
  change_of [] = none
  change_of (s ∷ []) = none
  change_of (s ∷ s' ∷ ss) = elim (last_sample (s' ∷ ss)) [
    | none ↦ none
    | some l ↦ some (minus l.value s.value)
  ]

  abbrev pub change_in : Result String (List (Series F)) → Option F
  change_in (err e) = none
  change_in (ok []) = none
  change_in (ok (r ∷ rs)) = change_of r.samples

  -- `capacityTrend`.
  pub capacity_trend : Source F → ℤ → List (Def F) → Dict F → Dict F
  capacity_trend src now [] out = out
  capacity_trend src now (d ∷ ds) out =
      capacity_trend src now ds
        (elim (change_in (src.range_query d.metric_value (days_before now 7) now hour)) [
          | none ↦ out
          | some delta ↦ update d.id delta out
        ])

  abbrev pub month_start : ℤ → Date → ℤ
  month_start now today = days_before (truncate_day now) (today.day - 1)

  -- What the summary says, once the spends of the week are there.
  pub weekly_summary :
      (List (GrowthRow F) → List (GrowthRow F))
      → Billing F
      → Source F
      → List (Def F)
      → ℤ
      → Date
      → List (DailySpend F)
      → WeeklySummary F
  weekly_summary sort_rows billing src defs now today this_week =
      let this_start = truncate_day (days_before now 7) in
      let prev_start = truncate_day (days_before now 14) in
      let prev_week = spends_or_none (billing prev_start (this_start -ℤ second)) in
      let spends = spends_or_none (billing (month_start now today) now) in
      let mtd = sum_spends nought spends in
      let rates = estimate_rates mtd (pos today.day) (recent_tail spends 7) in
      record {
        rows = weekly_top_growth sort_rows this_week prev_week (pos 5);
        trend = capacity_trend src now defs [];
        eom = project_eom mtd today rates;
        confirmed = last_date spends;
      }

  abbrev pub weekly_row : ℤ → String → SensorState F
  weekly_row now week = record {
    sensor_id = weekly_state_id;
    state = week;
    last_value = nought;
    last_utilization = nought;
    last_notify_at = some now;
    updated_at = none;
  }

  abbrev pub send_weekly :
      ℤ
      → String
      → Bool
      → Bool
      → WeeklySummary F
      → Dict (SensorState F)
      → Dict (SensorState F) × Option (WeeklySummary F)
  send_weekly now week true works m states =
      (or_same states (set_state now works (weekly_row now week) states), some m)
  send_weekly now week false works m states = (states, some m)

  abbrev pub fetched_weekly :
      ℤ
      → String
      → Bool
      → Bool
      → Result String (WeeklySummary F)
      → Dict (SensorState F)
      → Dict (SensorState F) × Option (WeeklySummary F)
  fetched_weekly now week sent works (err e) states = (states, none)
  fetched_weekly now week sent works (ok m) states = send_weekly now week sent works m states

  -- The bill of the week, and the summary over it.
  abbrev pub weekly_result :
      (List (GrowthRow F) → List (GrowthRow F))
      → Billing F
      → Source F
      → List (Def F)
      → ℤ
      → Date
      → Result String (WeeklySummary F)
  weekly_result sort_rows billing src defs now today =
      billing (truncate_day (days_before now 7)) now >>= λ this_week.
      ok (weekly_summary sort_rows billing src defs now today this_week)

  abbrev pub weekly_of :
      Option (Billing F)
      → (Billing F → Result String (WeeklySummary F))
      → Result String (WeeklySummary F)
  weekly_of none f = err "no billing source"
  weekly_of (some billing) f = f billing

  -- `maybeWeeklyCost`: `off` is the environment's switch, `week` the ISO week as a text, `today` the
  -- date; `sent` and `works` say what the notifier and the database do.
  unfoldable pub maybe_weekly_cost :
      (List (GrowthRow F) → List (GrowthRow F))
      → Option (Billing F)
      → Bool
      → Source F
      → List (Def F)
      → ℤ
      → Date
      → String
      → Bool
      → Bool
      → Dict (SensorState F)
      → Dict (SensorState F) × Option (WeeklySummary F)
  maybe_weekly_cost sort_rows billing off src defs now today week sent works states =
      if off || is_day week (get_state weekly_state_id states)
      then (states, none)
      else fetched_weekly now week sent works
          (weekly_of billing (λ b. weekly_result sort_rows b src defs now today)) states
