-- ===== src/Daemon/Setup.antt =====
-- cmd/sentinel/daemon.go `setupSensors`, `specLoadAll` and `applyWasteEnvOverride`: the sensors that a
-- daemon polls, built anew at every reload.
pub mod Steps
pub mod Switch
use slo_sentinel.Prelude.{
  ◌+◌, ◌-◌, ◌*◌, ◌/◌, String, false, ◌||◌, not, Option, none, some, List, [], ◌∷◌, ◌++◌, str_eq,
  if◌then◌else◌, Result, ok, err, ◌>>=◌,
}
use slo_sentinel.Prelude.Int.{ℤ, pos, ltb_ℤ, ◌-ℤ◌, ◌*ℤ◌, ◌/ℤ◌}
use slo_sentinel.Prelude.Dict.{Dict, update}
use slo_sentinel.Prelude.Float.{Float}
use slo_sentinel.Promdur.{parse}
use slo_sentinel.Query.{Sample, Series, Source}
use slo_sentinel.Files.{LoadError}
use slo_sentinel.Spec.{Slo, SpecError}
use slo_sentinel.Budget.Types.{
  Thresholds, Forecast, Input, unset, default_horizons, default_thresholds, second, minute,
}
use slo_sentinel.Budget.Engine.{nought}
use slo_sentinel.Budget.Evaluate.{same_window, evaluate}
use slo_sentinel.Capacity.Defs.{Def, DefError, resolve}
use slo_sentinel.Capacity.Sensor.{
  Sensor, PollError, value_query, range_query, rejected, with_error, last_sample, new_sensor,
}

-- The interval of the waste scan, overridden by `WASTE_SCAN_INTERVAL_SEC`; `atoi` is `strconv.Atoi`.
abbrev pub positive_or : ℤ → Option ℤ → ℤ
positive_or old none = old
positive_or old (some n) = if ltb_ℤ (pos 0) n then n else old

pub apply_waste_env_override : (String → Option ℤ) → String → ℤ → ℤ
apply_waste_env_override atoi v interval =
    if str_eq v "off" || str_eq v "0"
    then pos 0
    else if not (str_eq v "")
    then positive_or interval (atoi v)
    else interval

pub record SpecSlo (F : Type 0) : Type 0 where
  pub id : String
  pub service : String
  pub sli_query : String
  pub objective : F
  pub window_days : ℤ
  pub th : Thresholds F

pub record SensorMeta : Type 0 where
  pub scope : String
  pub service : String
  pub cluster : String

-- A `sensorRunner` by what its `poll` closes over.
pub data Polled (F : Type 0) : Type 0 where
  capacity_poll : Sensor F → Polled F
  budget_poll : SpecSlo F → Polled F

pub record SensorRunner (F : Type 0) : Type 0 where
  pub id : String
  pub filter : String
  pub poll : Polled F

-- The fields of the daemon that the setup writes.
pub record Sensors (F : Type 0) : Type 0 where
  pub runners : List (SensorRunner F)
  pub meta : Dict SensorMeta
  pub cap_defs : List (Def F)

pub data SetupError : Type 0 where
  defs_failed : LoadError DefError → SetupError
  sensor_failed : DefError → SetupError
  slos_failed : LoadError SpecError → SetupError

-- The step of the range query of an SLO: a ten-thousandth of its window in whole seconds, and at
-- least a minute.
unfoldable pub slo_step : ℤ → ℤ
slo_step window =
    let step = window /ℤ pos 10000 /ℤ second *ℤ second in if ltb_ℤ step minute then minute else step

module _ ⦃fl : Float⦄ where
  open fl use {F, minus, over, decimal}

  -- `specLoadAll`, once the files are loaded.
  pub spec_load_all : List (Slo F) → List (SpecSlo F)
  spec_load_all [] = []
  spec_load_all (x ∷ xs) =
      record {
        id = x.id;
        service = x.service;
        sli_query = x.sli_query;
        objective = x.objective;
        window_days = x.window_days;
        th = elim x.thresholds [ none ↦ default_thresholds | some o ↦ resolve (some o) ];
      }
      ∷ spec_load_all xs

  abbrev pub first_series : List (Series F) → List (Sample F)
  first_series [] = []
  first_series (r ∷ rs) = r.samples

  abbrev pub value_or_nought : Option (Sample F) → F
  value_or_nought none = nought
  value_or_nought (some s) = s.value

  -- The samples of each default horizon are all those of the window.
  pub slo_samples : List (Sample F) → List ℤ → ℤ → List (Sample F)
  slo_samples series [] w = []
  slo_samples series (h ∷ hs) w =
      let rest = slo_samples series hs w in if same_window h w then series else rest

  pub slo_input : SpecSlo F → ℤ → ℤ → List (Sample F) → F → Input F
  slo_input slo now step series value = record {
    def = record { id = slo.id; value_query = ""; ceiling_query = ""; horizons = [] };
    now = now;
    value = value;
    ceiling = over (minus (decimal 100 0) slo.objective) (decimal 100 0);
    prev_ceiling = nought;
    samples = slo_samples series default_horizons;
    interval = step;
    prev_state = unset;
    prev_exit_streak = 0;
    th = slo.th;
    use_ols = false;
  }

  -- The poll of an SLO; `in_days` is `fmt.Sprintf("%dd", n)`.
  pub slo_poll : (ℤ → String) → Source F → ℤ → SpecSlo F → Result PollError (Forecast F)
  slo_poll in_days src now slo = do
    let window = parse (in_days slo.window_days)
    let step = slo_step window
    res ← with_error range_query (src.range_query slo.sli_query (now -ℤ window) now step)
    inst ← with_error value_query (src.instant_query slo.sli_query now)
    with_error rejected (
        evaluate (
          slo_input slo now step (first_series res)
            (value_or_nought (last_sample (first_series inst)))))

  abbrev pub meta_of : Def F → SensorMeta
  meta_of d = record { scope = d.scope; service = d.service; cluster = d.cluster }

  -- The loop over the definitions: a sensor that is refused ends it, but what it wrote of `meta`
  -- stays.
  unfoldable pub add_capacity :
      List (Def F)
      → Dict SensorMeta
      → List (SensorRunner F)
      → Dict SensorMeta × Result SetupError (List (SensorRunner F))
  add_capacity [] meta runners = (meta, ok runners)
  add_capacity (d ∷ ds) meta runners = elim (new_sensor d) [
    | err e ↦ (meta, err (sensor_failed e))
    | ok s ↦
        add_capacity ds (update d.id (meta_of d) meta)
          (runners ++ record { id = d.id; filter = d.id; poll = capacity_poll s } ∷ [])
  ]

  pub add_slos : List (SpecSlo F) → List (SensorRunner F)
  add_slos [] = []
  add_slos (s ∷ ss) = record { id = s.id; filter = s.service; poll = budget_poll s } ∷ add_slos ss

  abbrev pub with_slos :
      List (Def F)
      → Dict SensorMeta
      → List (SensorRunner F)
      → Result (LoadError SpecError) (List (Slo F))
      → Sensors F
      → Sensors F × Result SetupError (Unit {0})
  with_slos defs meta runners (err e) d =
      (record { runners = d.runners; meta = meta; cap_defs = defs }, err (slos_failed e))
  with_slos defs meta runners (ok slos) d = (
    record { runners = runners ++ add_slos (spec_load_all slos); meta = meta; cap_defs = defs },
    ok tt,
  )

  abbrev pub with_capacity :
      List (Def F)
      → Result (LoadError SpecError) (List (Slo F))
      → Sensors F
      → Dict SensorMeta × Result SetupError (List (SensorRunner F))
      → Sensors F × Result SetupError (Unit {0})
  with_capacity defs slos d (meta, err e) = (record d { meta = meta }, err e)
  with_capacity defs slos d (meta, ok runners) = with_slos defs meta runners slos d

  -- `setupSensors`, with what the two loaders return.
  unfoldable pub setup_sensors :
      Result (LoadError DefError) (List (Def F))
      → Result (LoadError SpecError) (List (Slo F))
      → Sensors F
      → Sensors F × Result SetupError (Unit {0})
  setup_sensors (err e) slos d = (d, err (defs_failed e))
  setup_sensors (ok defs) slos d = with_capacity defs slos d (add_capacity defs d.meta [])
