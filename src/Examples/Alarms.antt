-- ===== src/Examples/Alarms.antt =====
-- Runs of internal/budget and internal/capacity.
use slo_sentinel.Prelude.{
  ℕ, ◌-◌, ◌*◌, ◌≡◌, refl, ◌⊎◌, inl, inr, true, false, Option, none, List, [], ◌∷◌, str_eq, ok, err,
}
use slo_sentinel.Prelude.Int.{ℤ, pos, ◌/ℤ◌, ◌*ℤ◌, ◌+ℤ◌, ◌-ℤ◌}
use slo_sentinel.Prelude.Float.{fixed, one_unit}
use slo_sentinel.Query.{Sample, Source}
use slo_sentinel.Budget.Types.{State, healthy, warning, hour, Forecast, Input, too_few_samples}
use slo_sentinel.Budget.Engine.{split_by_gaps, ceiling_jumped, min_samples, validate, nought}
use slo_sentinel.Budget.Engine.Runs.{split_by_gaps-AreRuns, AreRuns, concat}
use slo_sentinel.Budget.Evaluate.{
  decide, evaluate, eval_window, is_zero_thresholds, same_window, check_input, forecast,
  eval_windows, forecast_of, longest_eta, set_window, get_window, would_crit, would_warn, eta_below,
  f_headroom, sort_slice_down, effective,
}
use slo_sentinel.Budget.Evaluate.Decide.{decide_hysteresis}
use slo_sentinel.Budget.Evaluate.Windows.{evaluate-eq-ok}
use slo_sentinel.Capacity.Defs.{Def}
use slo_sentinel.Capacity.Sensor.{Sensor, new_sensor}
use slo_sentinel.Capacity.Sensor.Polls.{poll_all, SensorIsWatch, poll_all-IsWatch}

ff : (false ≡ true) → ⊥
ff e = cc

-- A disk of 100 units of which `used` are used.
abbrev input : State → ℕ → List ℤ → ℕ → Input ℤ
input prev streak horizons used = record {
  def = record { id = "disk"; value_query = "used"; ceiling_query = "size"; horizons = horizons };
  now = pos 0;
  value = pos (used * one_unit);
  ceiling = pos (100 * one_unit);
  prev_ceiling = pos 0;
  samples = λ w. [];
  interval = pos 60000000000;
  prev_state = prev;
  prev_exit_streak = streak;
  th = record {
    warn_eta = pos 259200000000000;
    crit_eta = pos 21600000000000;
    soft_ratio = pos 800000;
    crit_ratio = pos 950000;
  };
  use_ols = false;
}

abbrev forecast_at : ℕ → Option ℤ → Option ℤ → Forecast ℤ
forecast_at percent aggressive conservative = record {
  id = "disk";
  now = pos 0;
  value = pos (percent * one_unit);
  ceiling = pos (100 * one_unit);
  headroom = pos ((100 - percent) * one_unit);
  utilization = pos (percent * 10000);
  eta_aggressive = aggressive;
  eta_conservative = conservative;
  per_window = [];
  state = healthy;
  exit_streak = 0;
  ceiling_jumped = false;
}

decide_hysteresis_example :
    (decide ⦃fl = fixed⦄ (forecast_at 50 none none) (input warning 0 [] 50) ≡ (warning, 1))
    × (decide ⦃fl = fixed⦄ (forecast_at 40 none none) (input warning 1 [] 40) ≡ (healthy, 2))
unfolding ◌/ℤ◌ ◌*ℤ◌ effective is_zero_thresholds same_window decide
    slo_sentinel.Budget.Evaluate.would_crit slo_sentinel.Budget.Evaluate.eta_below
    slo_sentinel.Budget.Evaluate.would_warn
decide_hysteresis_example =
    decide_hysteresis ⦃fl = fixed⦄ warning (forecast_at 50 none none) (forecast_at 40 none none)
      (input warning 0 [] 50) (input warning 1 [] 40) (inl refl) refl refl
      (elim [ inl h ↦ h | inr h ↦ ff h ], elim [ inl h ↦ h.0 | inr h ↦ h ]) refl
      (elim [ inl h ↦ h | inr h ↦ ff h ], elim [ inl h ↦ h.0 | inr h ↦ h ])

abbrev two_samples : List (Sample ℤ)
two_samples = record { time = pos 1; value = pos 0 } ∷ record { time = pos 9; value = pos 0 } ∷ []

split_by_gaps-AreRuns_example :
    (concat (split_by_gaps ⦃fl = fixed⦄ two_samples (pos 5)) ≡ two_samples)
    × AreRuns (pos 5) (split_by_gaps ⦃fl = fixed⦄ two_samples (pos 5))
split_by_gaps-AreRuns_example = split_by_gaps-AreRuns ⦃fl = fixed⦄ (pos 5) two_samples

abbrev hourly : Forecast ℤ
hourly = record (forecast_at 50 none none) {
  exit_streak = 1;
  per_window =
      (
        hour,
        record {
          window = hour;
          slope = none;
          samples = 0;
          eta = none;
          valid = false;
          reason = too_few_samples 0 (pos 49);
        },
      )
      ∷ [];
}

evaluate_example : evaluate ⦃fl = fixed⦄ (input healthy 0 (hour ∷ []) 50) ≡ ok hourly
unfolding evaluate check_input is_zero_thresholds same_window validate forecast eval_windows
    eval_window min_samples ◌/ℤ◌ ◌*ℤ◌ ◌+ℤ◌ forecast_of ◌-ℤ◌ longest_eta set_window decide
    ceiling_jumped get_window would_crit eta_below would_warn effective f_headroom
evaluate_example = refl

evaluate-eq-ok_example :
    ((is_zero_thresholds ⦃fl = fixed⦄ (input healthy 0 (hour ∷ []) 50).th ≡ true)
      ⊎ (validate ⦃fl = fixed⦄ (input healthy 0 (hour ∷ []) 50).th ≡ ok tt))
    × (str_eq "disk" "" ≡ false)
    × (fixed.at_most (pos (100 * one_unit)) (nought ⦃fl = fixed⦄) ≡ false)
    × (decide ⦃fl = fixed⦄ hourly (input healthy 0 (hour ∷ []) 50)
        ≡ (hourly.state, hourly.exit_streak))
    × (hourly.headroom ≡ fixed.minus (pos (100 * one_unit)) (pos (50 * one_unit)))
    × (hourly.utilization ≡ fixed.over (pos (50 * one_unit)) (pos (100 * one_unit)))
evaluate-eq-ok_example =
    evaluate-eq-ok ⦃fl = fixed⦄ (input healthy 0 (hour ∷ []) 50) hourly evaluate_example

abbrev six_hours : ℤ
six_hours = pos 21600000000000

abbrev six_hourly : Forecast ℤ
six_hourly = record hourly {
  per_window =
      (
        six_hours,
        record {
          window = six_hours;
          slope = none;
          samples = 0;
          eta = none;
          valid = false;
          reason = too_few_samples 0 (pos 298);
        },
      )
      ∷ [];
}

evaluate-six_hours : evaluate ⦃fl = fixed⦄ (input healthy 0 (six_hours ∷ []) 50) ≡ ok six_hourly
unfolding evaluate check_input is_zero_thresholds same_window validate forecast eval_windows
    eval_window min_samples ◌/ℤ◌ ◌*ℤ◌ ◌+ℤ◌ forecast_of ◌-ℤ◌ longest_eta set_window decide
    ceiling_jumped get_window would_crit eta_below would_warn effective f_headroom
evaluate-six_hours = refl

abbrev disk : Def ℤ
disk = record {
  id = "disk";
  desc = "";
  metric_value = "used";
  metric_ceiling = "size";
  horizons = [];
  thresholds = none;
  service = "";
  scope = "";
  cluster = "";
}

abbrev disk_sensor : Sensor ℤ
disk_sensor = record {
  def = disk;
  step = pos 60000000000;
  prev_ceiling = pos 0;
  prev_state = healthy;
  streak = 0;
  started = false;
}

-- A source that fails.
abbrev dead : Source ℤ
dead = record { instant_query = λ q t. err "down"; range_query = λ q a b step. err "down" }

new_disk_sensor : new_sensor ⦃fl = fixed⦄ disk ≡ ok disk_sensor
unfolding new_sensor
new_disk_sensor = refl

poll_all-IsWatch_example :
    SensorIsWatch ⦃fl = fixed⦄ (poll_all ⦃fl = fixed⦄ disk_sensor ((dead, pos 0) ∷ []))
poll_all-IsWatch_example =
    poll_all-IsWatch ⦃fl = fixed⦄ disk disk_sensor ((dead, pos 0) ∷ []) new_disk_sensor
