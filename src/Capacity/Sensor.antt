-- ===== src/Capacity/Sensor.antt =====
-- internal/capacity/sensor.go: a sensor carries its ceiling, state and streak from poll to poll.
pub mod Polls
use slo_sentinel.Prelude.{
  ℕ, String, Bool, true, false, ◌||◌, Option, none, some, List, [], ◌∷◌, arith, str_eq,
  if◌then◌else◌, Result, ok, err, ◌>>=◌,
}
use slo_sentinel.Prelude.Int.{ℤ, ◌-ℤ◌}
use slo_sentinel.Prelude.Float.{Float}
use slo_sentinel.Query.{Sample, Series, Source}
use slo_sentinel.Budget.Types.{State, healthy, Error, Forecast, Input, minute}
use slo_sentinel.Budget.Engine.{nought}
use slo_sentinel.Budget.Evaluate.{same_window, evaluate}
use slo_sentinel.Capacity.Defs.{Def, DefError, missing_metric, horizon_durations, resolve}

pub record Sensor (F : Type 0) : Type 0 where
  pub def : Def F
  pub step : ℤ
  pub prev_ceiling : F
  pub prev_state : State
  pub streak : ℕ
  pub started : Bool

pub data PollError : Type 0 where
  value_query ceiling_query range_query : String → PollError
  rejected : Error → PollError

abbrev pub with_error {ℓ} : {E E' : Type 0} {A : Type ℓ} → (E → E') → Result E A → Result E' A
with_error f (ok a) = ok a
with_error f (err e) = err (f e)

abbrev pub last_sample : {F : Type 0} → List (Sample F) → Option (Sample F)
last_sample [] = none
last_sample (s ∷ []) = some s
last_sample (s ∷ s' ∷ ss) = last_sample (s' ∷ ss)

-- The loop of `instant`: the last value of the first series that has a sample.
pub first_value : {F : Type 0} → List (Series F) → Option F
first_value [] = none
first_value (r ∷ rs) = elim (last_sample r.samples) [
  | none ↦ first_value rs
  | some s ↦ some s.value
]

abbrev pub value_or_error : {F : Type 0} → Option F → Result String F
value_or_error none = err "no data point"
value_or_error (some v) = ok v

pub instant : {F : Type 0} → Source F → String → ℤ → Result String F
instant src q at = src.instant_query q at >>= λ res. value_or_error (first_value res)

-- The samples of every window, as a list of the map's entries.
abbrev pub with_samples :
    {F : Type 0} → ℤ → List (Series F) → List (ℤ × List (Sample F)) → List (ℤ × List (Sample F))
with_samples w [] m = m
with_samples w (r ∷ rs) m = (w, r.samples) ∷ m

pub query_windows :
    {F : Type 0}
    → Source F
    → String
    → ℤ
    → ℤ
    → List ℤ
    → Result PollError (List (ℤ × List (Sample F)))
query_windows src q now step [] = ok []
query_windows src q now step (w ∷ ws) =
    with_error range_query (src.range_query q (now -ℤ w) now step) >>= λ res.
    query_windows src q now step ws >>= λ m. ok (with_samples w res m)

-- `samples[w]`.
pub samples_at : {F : Type 0} → List (ℤ × List (Sample F)) → ℤ → List (Sample F)
samples_at [] w = []
samples_at ((v, ss) ∷ m) w = if same_window v w then ss else samples_at m w

module _ ⦃fl : Float⦄ where
  open fl use {F}

  -- `New`.
  unfoldable pub new_sensor : Def F → Result DefError (Sensor F)
  new_sensor def =
      if str_eq def.metric_value "" || str_eq def.metric_ceiling ""
      then err missing_metric
      else ok (record {
        def = def;
        step = minute;
        prev_ceiling = nought;
        prev_state = healthy;
        streak = 0;
        started = false;
      })

  pub input_of : Sensor F → ℤ → F → F → List (ℤ × List (Sample F)) → Input F
  input_of s now value ceiling windows = record {
    def = record {
      id = s.def.id;
      value_query = "";
      ceiling_query = "";
      horizons = horizon_durations s.def;
    };
    now = now;
    value = value;
    ceiling = ceiling;
    prev_ceiling = s.prev_ceiling;
    samples = samples_at windows;
    interval = s.step;
    prev_state = s.prev_state;
    prev_exit_streak = s.streak;
    th = resolve s.def.thresholds;
    use_ols = false;
  }

  pub measure : Sensor F → Source F → ℤ → Result PollError (Forecast F)
  measure s src now = do
    value ← with_error value_query (instant src s.def.metric_value now)
    ceiling ← with_error ceiling_query (instant src s.def.metric_ceiling now)
    windows ← query_windows src s.def.metric_value now s.step (horizon_durations s.def)
    with_error rejected (evaluate (input_of s now value ceiling windows))

  abbrev pub keep_forecast :
      Sensor F → Result PollError (Forecast F) → Result PollError (Forecast F) × Sensor F
  keep_forecast s (err e) = (err e, s)
  keep_forecast s (ok f) = (
    ok f,
    record s {
      started = true;
      prev_ceiling = f.ceiling;
      prev_state = f.state;
      streak = f.exit_streak;
    },
  )

  -- `Poll`: the sensor changes only where a forecast is returned.
  pub poll : Sensor F → Source F → ℤ → Result PollError (Forecast F) × Sensor F
  poll s src now = keep_forecast s (measure s src now)
