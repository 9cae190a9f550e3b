-- ===== src/Daemon/Round.antt =====
-- cmd/sentinel/daemon.go `runOnePoll`, and predictions_retention.go.
pub mod Isolation
pub mod Retention
use slo_sentinel.Prelude.{
  ℕ, String, Bool, true, false, not, Option, none, some, List, [], ◌∷◌, ◌++◌, str_eq, if◌then◌else◌,
  Result, ok, err,
}
use slo_sentinel.Prelude.Int.{ℤ, pos, ltb_ℤ}
use slo_sentinel.Prelude.Dict.{Dict}
use slo_sentinel.Budget.Types.{state_name, Forecast}
use slo_sentinel.Store.States.{SensorState, StoreError, set_state, get_state}
use slo_sentinel.Store.Predictions.{Prediction, Table, append_prediction, prune_predictions}
use slo_sentinel.Daemon.Notify.{Notices, Replies, Runner, Post, notify}

-- The daemon's tables and memory; its metrics and logs are left out.
pub record Daemon (F : Type 0) : Type 0 where
  pub notices : Notices
  pub states : Dict (SensorState F)
  pub predictions : Table F
  pub catalog_version : String

-- A statement that fails is logged, and the table stays as it was.
abbrev pub or_same {ℓ} : {A : Type ℓ} → A → Result StoreError A → A
or_same a (ok b) = b
or_same a (err e) = a

abbrev pub last_notify : {F : Type 0} → Option (SensorState F) → Option ℤ
last_notify none = none
last_notify (some st) = st.last_notify_at

-- How the database and the services answer in the poll of one sensor.
pub record Answers : Type 0 where
  pub now : ℤ
  pub append_works : Bool
  pub set_works : Bool
  pub replies : Replies

-- The row that remembers the day of the last pruning.
abbrev pub prune_state_id : String
prune_state_id = "__predictions_prune__"

module _ {F : Type 0} where
  -- Ids of new rows are the database's.
  pub prediction_of : Daemon F → Forecast F → Prediction F
  prediction_of d f = record {
    id = 0;
    sensor_id = f.id;
    predicted_at = f.now;
    eta_aggressive = f.eta_aggressive;
    eta_conservative = f.eta_conservative;
    actual_value = f.value;
    catalog_version = d.catalog_version;
    ceiling = some f.ceiling;
    utilization = some f.utilization;
  }

  pub state_of : Daemon F → Forecast F → SensorState F
  state_of d f = record {
    sensor_id = f.id;
    state = state_name f.state;
    last_value = f.value;
    last_utilization = f.utilization;
    last_notify_at = last_notify (get_state f.id d.states);
    updated_at = none;
  }

  -- What a sensor that gave a forecast does: record it, notify, and store its state.
  pub record_forecast : Runner → Answers → Forecast F → Daemon F → Daemon F × List Post
  record_forecast r answers f d =
      let (notices', posts) = notify (record r { id = f.id }) f.state answers.replies d.notices in
      (
        record d {
          notices = notices';
          states =
              or_same d.states (set_state answers.now answers.set_works (state_of d f) d.states);
          predictions =
              or_same d.predictions
                (append_prediction answers.append_works (prediction_of d f) d.predictions);
        },
        posts,
      )

  -- A poll that fails, or panics, is logged and nothing else.
  pub poll_sensor :
      {E : Type 0} → Runner → Answers → Result E (Forecast F) → Daemon F → Daemon F × List Post
  poll_sensor r answers (ok f) d = record_forecast r answers f d
  poll_sensor r answers (err e) d = (d, [])

  -- `runOnePoll`: the sensors in turn, each with its poll's result and the answers it gets.
  pub run_one_poll :
      {E : Type 0}
      → List (Runner × Answers × Result E (Forecast F))
      → Daemon F
      → Daemon F × List Post
  run_one_poll [] d = (d, [])
  run_one_poll ((r, answers, result) ∷ sensors) d =
      let (d', posts) = poll_sensor r answers result d in
      let (last, later) = run_one_poll sensors d' in (last, posts ++ later)

  abbrev pub is_day : String → Option (SensorState F) → Bool
  is_day day none = false
  is_day day (some st) = str_eq st.state day

  -- The row that `maybePrunePredictions` writes.
  pub prune_row : F → String → SensorState F
  prune_row zero_value day = record {
    sensor_id = prune_state_id;
    state = day;
    last_value = zero_value;
    last_utilization = zero_value;
    last_notify_at = none;
    updated_at = none;
  }

  -- The rows that a pruning leaves, with the day written down; a pruning that fails writes nothing.
  pub after_prune : F → ℤ → String → Bool → Daemon F → Result StoreError (ℕ × Table F) → Daemon F
  after_prune zero_value now day set_works d (err e) = d
  after_prune zero_value now day set_works d (ok (n, table)) = record d {
    predictions = table;
    states = or_same d.states (set_state now set_works (prune_row zero_value day) d.states);
  }

  -- `maybePrunePredictions`: `day` is the date as a text, `cutoff` the instant so many days
  -- earlier, both the time library's; the two tests say whether the database does its part. The
  -- result also says whether the database was asked.
  unfoldable pub maybe_prune : F → ℤ → ℤ → String → ℤ → Bool → Bool → Daemon F → Daemon F × Bool
  maybe_prune zero_value days now day cutoff prune_works set_works d =
      if not (ltb_ℤ (pos 0) days)
      then (d, false)
      else if is_day day (get_state prune_state_id d.states)
      then (d, false)
      else (
        after_prune zero_value now day set_works d
            (prune_predictions prune_works cutoff d.predictions),
        true,
      )
