-- ===== src/Cost/Weekly.antt =====
-- internal/cost/weekly.go: the services that grow most from one week to the next.
pub mod Growth
use slo_sentinel.Prelude.{
  ℕ, zero, suc, String, Option, none, some, List, [], ◌∷◌, ltb, if◌then◌else◌, take,
}
use slo_sentinel.Prelude.Int.{ℤ, pos}
use slo_sentinel.Prelude.Dict.{Dict, lookup, update}
use slo_sentinel.Prelude.Float.{Float}
use slo_sentinel.Budget.Engine.{nought}
use slo_sentinel.Cost.Forecast.{DailySpend}

-- A row without the guess of its cause, which is a text.
pub record GrowthRow (F : Type 0) : Type 0 where
  pub service : String
  pub recent_avg : F
  pub previous_avg : F
  pub growth : F

module _ ⦃fl : Float⦄ where
  open fl use {F, plus, minus, over, less, at_most, decimal, of_int}

  -- The sum and the number of the days of one service.
  abbrev pub Tally : Type 0
  Tally = F × ℕ

  abbrev pub tally_of : Option Tally → Tally
  tally_of none = (nought, 0)
  tally_of (some t) = t

  -- The first loop of `dailyByService`: its two maps have the same keys and are one here.
  pub tallies : List (DailySpend F) → Dict Tally → Dict Tally
  tallies [] m = m
  tallies (s ∷ ss) m =
      let (sum, days) = tally_of (lookup s.service m) in
      tallies ss (update s.service (plus sum s.cost_usd, suc days) m)

  pub averages : Dict Tally → Dict F
  averages [] = []
  averages ((svc, (total, d)) ∷ m) =
      let rest = averages m in if ltb 0 d then (svc, over total (of_int (pos d))) ∷ rest else rest

  -- `dailyByService`.
  pub daily_by_service : List (DailySpend F) → Dict F
  daily_by_service spends = averages (tallies spends [])

  abbrev pub average_at : String → Dict F → F
  average_at svc m = elim (lookup svc m) [ none ↦ nought | some v ↦ v ]

  -- The rows of the services that grow.
  pub growing : Dict F → Dict F → List (GrowthRow F)
  growing [] prev = []
  growing ((svc, r) ∷ recent) prev =
      let p = average_at svc prev in
      let g = minus r p in
      let rest = growing recent prev in
      if at_most g (decimal 1 9)
      then rest
      else record { service = svc; recent_avg = r; previous_avg = p; growth = g } ∷ rest

  abbrev pub five_if_none : ℤ → ℕ
  five_if_none (pos zero) = 5
  five_if_none (pos (suc n)) = suc n
  five_if_none _ = 5

  -- `WeeklyTopGrowth`; `sort_rows` is `sort.Slice` with the order of falling growth.
  pub weekly_top_growth :
      (List (GrowthRow F) → List (GrowthRow F))
      → List (DailySpend F)
      → List (DailySpend F)
      → ℤ
      → List (GrowthRow F)
  weekly_top_growth sort_rows this_week prev_week top_n =
      take (five_if_none top_n)
        (sort_rows (growing (daily_by_service this_week) (daily_by_service prev_week)))
