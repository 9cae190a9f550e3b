-- ===== src/Api.antt =====
-- cmd/sentinel/api.go: what the read-only endpoints answer, as values in place of JSON.
pub mod Status
use slo_sentinel.Prelude.{
  ℕ, ◌-◌, ◌*◌, String, Bool, ◌&&◌, ◌||◌, not, Option, none, some, List, [], ◌∷◌, str_eq,
  if◌then◌else◌, length, Result, ok, err,
}
use slo_sentinel.Prelude.Int.{ℤ, pos, ltb_ℤ, ◌-ℤ◌, ◌*ℤ◌}
use slo_sentinel.Prelude.Dict.{Dict, update, lookup}
use slo_sentinel.Prelude.Float.{Float}
use slo_sentinel.Budget.Engine.{nought}
use slo_sentinel.Store.States.{SensorState, get_state}
use slo_sentinel.Store.Predictions.{Prediction, Table, list_predictions}
use slo_sentinel.Pricing.Rates.{sort_strings, keys}

-- `metricsRegistry`: the values by name.
pub set_metric : {F : Type 0} → String → F → Dict F → Dict F
set_metric name v m = update name v m

pub values_at : {F : Type 0} → List String → Dict F → List (String × F)
values_at [] m = []
values_at (k ∷ ks) m =
    let rest = values_at ks m in elim (lookup k m) [ none ↦ rest | some v ↦ (k, v) ∷ rest ]

-- `renderText`, as the lines in their order.
pub render : {F : Type 0} → Dict F → List (String × F)
render m = values_at (sort_strings (keys m)) m

pub data ApiError : Type 0 where
  bad_request not_found : ApiError

abbrev pub last_of : {A : Type 0} → List A → Option A
last_of [] = none
last_of (x ∷ []) = some x
last_of (x ∷ y ∷ xs) = last_of (y ∷ xs)

-- `days` of `sloDetail`, from the query parameter and what `strconv.Atoi` makes of it.
abbrev pub days_in_range : Option ℤ → ℤ
days_in_range none = pos 30
days_in_range (some n) = if ltb_ℤ (pos 0) n && not (ltb_ℤ (pos 365) n) then n else pos 30

pub detail_days : (String → Option ℤ) → String → ℤ
detail_days atoi v = if not (str_eq v "") then days_in_range (atoi v) else pos 30

pub record Accuracy (F : Type 0) : Type 0 where
  pub sensor_id : String
  pub predictions : ℕ
  pub last_eta_aggressive : Option F

module _ {F : Type 0} where
  -- `sloDetail`, of a database that answers.
  pub slo_detail :
      (String → Option ℤ)
      → String
      → String
      → ℤ
      → Dict (SensorState F)
      → Table F
      → Result ApiError (Option (SensorState F) × List (Prediction F))
  slo_detail atoi id days_text now states table =
      if str_eq id ""
      then err bad_request
      else ok (
        get_state id states,
        list_predictions id (now -ℤ detail_days atoi days_text *ℤ pos 86400000000000) table,
      )

  abbrev pub last_aggressive : Option (Prediction F) → Option F
  last_aggressive none = none
  last_aggressive (some p) = p.eta_aggressive

  -- `accuracyJSON`.
  pub accuracy : ℤ → List String → Table F → List (Accuracy F)
  accuracy now [] table = []
  accuracy now (id ∷ ids) table =
      let preds = list_predictions id (now -ℤ pos 604800000000000) table in
      record {
        sensor_id = id;
        predictions = length preds;
        last_eta_aggressive = last_aggressive (last_of preds);
      }
      ∷ accuracy now ids table

pub record BudgetStatus (F : Type 0) : Type 0 where
  pub state : String
  pub remaining_budget : F
  pub eta_hours : Option F
  pub updated_at : Option ℤ

module _ ⦃fl : Float⦄ where
  open fl use {F, minus, times, over, less, decimal, round}

  -- The percentage of the budget that is left, to two places and between 0 and 100.
  pub remaining_budget : F → F
  remaining_budget utilization =
      let remain =
        over
          (round (times (times (minus (decimal 1 0) utilization) (decimal 100 0)) (decimal 100 0)))
          (decimal 100 0) in
      if less remain nought
      then nought
      else if less (decimal 100 0) remain
      then decimal 100 0
      else remain

  abbrev pub hours_of : Option F → Option F
  hours_of none = none
  hours_of (some eta) = some (over eta (decimal 3600 0))

  abbrev pub conservative_hours : Option (Prediction F) → Option F
  conservative_hours none = none
  conservative_hours (some p) = hours_of p.eta_conservative

  abbrev pub status_of :
      String → ℤ → Table F → Option (SensorState F) → Result ApiError (BudgetStatus F)
  status_of id now table none = err not_found
  status_of id now table (some st) = ok (record {
    state = st.state;
    remaining_budget = remaining_budget st.last_utilization;
    eta_hours =
        conservative_hours (last_of (list_predictions id (now -ℤ pos 86400000000000) table));
    updated_at = st.updated_at;
  })

  -- `budgetStatusJSON`, of a database that answers; `has_slash` is `strings.Contains(id, "/")`.
  unfoldable pub budget_status :
      (String → Bool)
      → String
      → ℤ
      → Dict (SensorState F)
      → Table F
      → Result ApiError (BudgetStatus F)
  budget_status has_slash id now states table =
      if str_eq id "" || has_slash id
      then err bad_request
      else status_of id now table (get_state id states)
