-- ===== src/Api/Status.antt =====
-- The bounds of what the endpoints report.
use slo_sentinel.Prelude.{
  String, ◌≡◌, ap, subst, inl, inr, Bool, false, ◌||◌, Option, none, some, arith, str_eq,
  Bool-cases, Result, ok, err,
}
use slo_sentinel.Prelude.Int.{ℤ, pos, ◌≤ℤ◌}
use slo_sentinel.Prelude.Dict.{Dict}
use slo_sentinel.Prelude.Float.{Float, IsOrdered}
use slo_sentinel.Budget.Engine.{nought}
use slo_sentinel.Store.States.{SensorState, get_state}
use slo_sentinel.Store.Predictions.{Table}
use slo_sentinel.Api.{
  ApiError, BudgetStatus, remaining_budget, status_of, budget_status, days_in_range, detail_days,
}

days_in_range-bounds : (o : Option ℤ) → (pos 1 ≤ℤ days_in_range o) × (days_in_range o ≤ℤ pos 365)
days_in_range-bounds none = (omega arith, omega arith)
days_in_range-bounds (some n) = ground arith

-- However the query parameter reads, the history that is shown goes back between 1 and 365 days.
pub detail_days-bounds :
    (atoi : String → Option ℤ) (v : String)
    → (pos 1 ≤ℤ detail_days atoi v) × (detail_days atoi v ≤ℤ pos 365)
unfolding detail_days
detail_days-bounds atoi v = elim (Bool-cases (str_eq v "")) [
  | inl e ↦ rw e (omega arith, omega arith)
  | inr e ↦ rw e (days_in_range-bounds (atoi v))
]

module _ ⦃fl : Float⦄ where
  open fl use {F, less, decimal}

  remaining_budget-bounds :
      (u : F)
      → less (decimal 100 0) nought ≡ false
      → less nought nought ≡ false
      → less (decimal 100 0) (decimal 100 0) ≡ false
      → (less (remaining_budget u) nought ≡ false)
        × (less (decimal 100 0) (remaining_budget u) ≡ false)
  unfolding remaining_budget
  remaining_budget-bounds u a b c = ground (arith, a, b, c)

  abbrev Fits : F → Type 0
  Fits x = (less x nought ≡ false) × (less (decimal 100 0) x ≡ false)

  abbrev remaining_of : Result ApiError (BudgetStatus F) → F
  remaining_of (ok st) = st.remaining_budget
  remaining_of (err e) = nought

  status_of-bounds :
      (id : String) (now : ℤ) (table : Table F) (row : Option (SensorState F)) (st : BudgetStatus F)
      → less (decimal 100 0) nought ≡ false
      → less nought nought ≡ false
      → less (decimal 100 0) (decimal 100 0) ≡ false
      → status_of id now table row ≡ ok st
      → (less st.remaining_budget nought ≡ false)
        × (less (decimal 100 0) st.remaining_budget ≡ false)
  status_of-bounds id now table none st a b c e = cc
  status_of-bounds id now table (some r) st a b c e =
      subst (λ x. Fits x) (ap remaining_of e) (remaining_budget-bounds r.last_utilization a b c)

  -- Where `<` is the order of numbers that are not NaN and 100 is not less than 0, the percentage of
  -- the budget that a status reports is neither below 0 nor above 100, whatever the sensor's row says.
  pub budget_status-bounds :
      (laws : IsOrdered fl (λ _. Unit {0})) (has_slash : String → Bool) (id : String) (now : ℤ)
      (states : Dict (SensorState F)) (table : Table F) (st : BudgetStatus F)
      → less (decimal 100 0) nought ≡ false
      → budget_status has_slash id now states table ≡ ok st
      → (less st.remaining_budget nought ≡ false)
        × (less (decimal 100 0) st.remaining_budget ≡ false)
  unfolding budget_status
  budget_status-bounds laws has_slash id now states table st h e =
      elim (Bool-cases (str_eq id "" || has_slash id)) [
        | inl b ↦ ground (arith, b, e)
        | inr b ↦
            status_of-bounds id now table (get_state id states) st h (laws.irrefl nought)
              (laws.irrefl (decimal 100 0)) (ground (arith, b, e))
      ]
