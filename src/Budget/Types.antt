-- ===== src/Budget/Types.antt =====
-- internal/budget/engine.go and evaluate.go: the data of the engine.
use slo_sentinel.Prelude.{ℕ, String, Bool, true, false, Option, List, [], ◌∷◌}
use slo_sentinel.Prelude.Int.{ℤ, pos}
use slo_sentinel.Prelude.Float.{Float}
use slo_sentinel.Query.{Sample}

-- `type State string` with its three constants; `unset` is the zero value "".
pub data State : Type 0 where
  unset healthy warning critical : State

abbrev pub state_eq : State → State → Bool
state_eq unset unset = true
state_eq healthy healthy = true
state_eq warning warning = true
state_eq critical critical = true
state_eq _ _ = false

-- `string(state)`.
abbrev pub state_name : State → String
state_name unset = ""
state_name healthy = "healthy"
state_name warning = "warning"
state_name critical = "critical"

abbrev pub second : ℤ
second = pos 1000000000

abbrev pub minute : ℤ
minute = pos 60000000000

abbrev pub hour : ℤ
hour = pos 3600000000000

-- `DefaultExitPolls`.
abbrev pub default_exit_polls : ℕ
default_exit_polls = 2

-- `DefaultHorizons`: 1h, 6h and 3d.
abbrev pub default_horizons : List ℤ
default_horizons = hour ∷ pos 21600000000000 ∷ pos 259200000000000 ∷ []

pub data Error : Type 0 where
  soft_not_below_crit warn_not_above_crit empty_id ceiling_not_positive : Error
  index_out_of_range : Error  -- a run-time panic

pub record Thresholds (F : Type 0) : Type 0 where
  pub warn_eta : ℤ
  pub crit_eta : ℤ
  pub soft_ratio : F
  pub crit_ratio : F

-- Why a window gives no forecast.
pub data Reason : Type 0 where
  no_reason jumped no_slope : Reason
  too_few_samples : ℕ → ℤ → Reason

pub record WindowEval (F : Type 0) : Type 0 where
  pub window : ℤ
  pub slope : Option F
  pub samples : ℕ
  pub eta : Option F
  pub valid : Bool
  pub reason : Reason

-- `PerWindow` is keyed by the window itself, where the code writes the window as a text.
pub record Forecast (F : Type 0) : Type 0 where
  pub id : String
  pub now : ℤ
  pub value : F
  pub ceiling : F
  pub headroom : F
  pub utilization : F
  pub eta_aggressive : Option F
  pub eta_conservative : Option F
  pub per_window : List (ℤ × WindowEval F)
  pub state : State
  pub exit_streak : ℕ
  pub ceiling_jumped : Bool

pub record Definition : Type 0 where
  pub id : String
  pub value_query : String
  pub ceiling_query : String
  pub horizons : List ℤ

-- `samples` is the map from a window to its raw samples, empty where the key is missing.
pub record Input (F : Type 0) : Type 0 where
  pub def : Definition
  pub now : ℤ
  pub value : F
  pub ceiling : F
  pub prev_ceiling : F
  pub samples : ℤ → List (Sample F)
  pub interval : ℤ
  pub prev_state : State
  pub prev_exit_streak : ℕ
  pub th : Thresholds F
  pub use_ols : Bool

module _ ⦃fl : Float⦄ where
  open fl use {F, less, same, decimal}

  pub default_thresholds : Thresholds F
  default_thresholds = record {
    warn_eta = pos 259200000000000;
    crit_eta = pos 21600000000000;
    soft_ratio = decimal 80 2;
    crit_ratio = decimal 95 2;
  }
