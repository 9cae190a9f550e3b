-- ===== src/Cost/Forecast.antt =====
-- internal/cost/cost.go: daily rates, the end of the month, the budget and the year.
use slo_sentinel.Prelude.{
  ℕ, zero, suc, String, Bool, true, false, ◌&&◌, Option, none, some, List, [], ◌∷◌, ◌++◌, ltb, ◌==◌,
  if◌then◌else◌, length,
}
use slo_sentinel.Prelude.Int.{ℤ, pos, ltb_ℤ}
use slo_sentinel.Prelude.Float.{Float}
use slo_sentinel.Budget.Engine.{nought}
use slo_sentinel.Cost.Days.{Date, days_in_month}

-- `billing.DailySpend`; a date is in nanoseconds.
pub record DailySpend (F : Type 0) : Type 0 where
  pub date : ℤ
  pub cost_usd : F
  pub service : String

pub record Rates (F : Type 0) : Type 0 where
  pub recent : F
  pub mtd : F

-- `EomProjection`, whose budget is never set.
pub record EomProjection (F : Type 0) : Type 0 where
  pub aggressive : F
  pub conservative : F

pub record MonthPoint (F : Type 0) : Type 0 where
  pub month : ℕ
  pub value : F
  pub actual : Bool

module _ ⦃fl : Float⦄ where
  open fl use {F, plus, minus, times, over, less, at_most, decimal, of_int}

  pub sum_spends : F → List (DailySpend F) → F
  sum_spends sum [] = sum
  sum_spends sum (s ∷ ss) = sum_spends (plus sum s.cost_usd) ss

  abbrev pub mean_spend : List (DailySpend F) → F
  mean_spend [] = nought
  mean_spend (s ∷ ss) = over (sum_spends nought (s ∷ ss)) (of_int (pos (length (s ∷ ss))))

  -- `EstimateRates`.
  pub estimate_rates : F → ℤ → List (DailySpend F) → Rates F
  estimate_rates mtd_total days_elapsed last_7_days = record {
    mtd = if ltb_ℤ (pos 0) days_elapsed then over mtd_total (of_int days_elapsed) else nought;
    recent = mean_spend last_7_days;
  }

  -- The days that are left of the month.
  pub remaining_days : Date → F
  remaining_days today =
      let left = minus (of_int (pos (days_in_month today))) (of_int (pos today.day)) in
      if less left nought then nought else left

  -- `ProjectEOM`.
  pub project_eom : F → Date → Rates F → EomProjection F
  project_eom mtd_total today rates = record {
    aggressive = plus mtd_total (times rates.recent (remaining_days today));
    conservative = plus mtd_total (times rates.mtd (remaining_days today));
  }

  -- `BudgetETA`, in seconds; `none` is no risk.
  pub budget_eta : F → F → F → Option F
  budget_eta mtd_total budget daily_rate =
      let remaining = minus budget mtd_total in
      if at_most daily_rate (decimal 1 6)
      then none
      else if at_most remaining nought
      then some nought
      else some (times (over remaining daily_rate) (decimal 86400 0))

  -- `DetectSpike`.
  pub detect_spike : F → F → Bool
  detect_spike today_cost daily_budget_avg =
      less nought daily_budget_avg && less (times daily_budget_avg (decimal 2 0)) today_cost

  -- The point of the current month, a projection.
  abbrev pub current_point : Date → F → F → ℕ → MonthPoint F
  current_point today mtd recent_rate m = record {
    month = m;
    value =
        (project_eom mtd today (record { recent = recent_rate; mtd = recent_rate })).conservative;
    actual = false;
  }

  abbrev pub past_point : ℕ → Option F → List (MonthPoint F)
  past_point m none = []
  past_point m (some v) = record { month = m; value = v; actual = true } ∷ []

  -- What the loop of `ProjectYear` appends for one month.
  pub month_points : Date → (ℕ → Option F) → ℕ → F → F → ℕ → List (MonthPoint F)
  month_points today monthly_actual current mtd recent_rate m =
      if ltb m current
      then past_point m (monthly_actual m)
      else if m == current
      then current_point today mtd recent_rate m ∷ []
      else []

  -- The loop from month `m` on, with so many months left.
  pub year_loop : Date → (ℕ → Option F) → ℕ → F → F → ℕ → ℕ → List (MonthPoint F)
  year_loop today monthly_actual current mtd recent_rate m zero = []
  year_loop today monthly_actual current mtd recent_rate m (suc left) =
      let rest = year_loop today monthly_actual current mtd recent_rate (suc m) left in
      if ltb current m
      then []
      else month_points today monthly_actual current mtd recent_rate m ++ rest

  pub sum_points : F → List (MonthPoint F) → F
  sum_points total [] = total
  sum_points total (p ∷ ps) = sum_points (plus total p.value) ps

  -- `ProjectYear`; the year is not read.
  pub project_year : Date → (ℕ → Option F) → ℕ → F → F → List (MonthPoint F) × F
  project_year today monthly_actual current mtd recent_rate =
      let points = year_loop today monthly_actual current mtd recent_rate 1 12 in
      (points, sum_points nought points)
