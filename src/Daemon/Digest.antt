-- ===== src/Daemon/Digest.antt =====
-- cmd/sentinel/daily_digest.go, and `eachState` of daemon.go: the daily summary of all sensors, whose
-- day and snapshot are rows of the table of states.
pub mod Once
pub mod Changes
use slo_sentinel.Prelude.{
  ℕ, ◌+◌, ◌*◌, String, Bool, false, ◌||◌, not, Option, none, some, List, [], ◌∷◌, str_eq,
  if◌then◌else◌,
}
use slo_sentinel.Prelude.Int.{ℤ, pos, ltb_ℤ, ◌+ℤ◌, ◌*ℤ◌}
use slo_sentinel.Prelude.Dict.{Dict, lookup, update}
use slo_sentinel.Prelude.Text.{split_on}
use slo_sentinel.Store.States.{SensorState, set_state, get_state}
use slo_sentinel.Daemon.Round.{or_same, is_day}

abbrev pub digest_state_id : String
digest_state_id = "__daily_digest__"

abbrev pub digest_snap_id : String
digest_snap_id = "__daily_digest_states__"

abbrev pub checked_time : Option ℤ → Option ℤ → Option (ℤ × ℤ)
checked_time none m = none
checked_time (some h) none = none
checked_time (some h) (some m) =
    if ltb_ℤ h (pos 0) || ltb_ℤ (pos 23) h || ltb_ℤ m (pos 0) || ltb_ℤ (pos 59) m
    then none
    else some (h, m)

module _ (atoi : List ℕ → Option ℤ) where
  abbrev pub time_of_parts : List (List ℕ) → Option (ℤ × ℤ)
  time_of_parts (h ∷ m ∷ []) = checked_time (atoi h) (atoi m)
  time_of_parts _ = none

  -- `parseDigestTime`; `atoi` is `strconv.Atoi`, whose error is `none`.
  unfoldable pub parse_digest_time : List ℕ → Option (ℤ × ℤ)
  parse_digest_time s = time_of_parts (split_on b':' s)

-- The sensors' states and how they differ from the last snapshot: the id, the old and the new state.
pub record Summary : Type 0 where
  pub current : Dict String
  pub changed : List (String × String × String)

-- How snapshots are written as JSON.
pub record Json : Type 0 where
  pub encode : Dict String → String
  pub decode : String → Option (Dict String)

unfoldable pub changes : Dict String → Dict String → List (String × String × String)
changes old [] = []
changes old ((id, st) ∷ current) =
    let rest = changes old current in
    elim (lookup id old) [
      | none ↦ rest
      | some o ↦ if not (str_eq o st) then (id, o, st) ∷ rest else rest
    ]

-- The time of day at which the summary is due, in nanoseconds from midnight.
abbrev pub due_at : ℤ × ℤ → ℤ
due_at (h, m) = (h *ℤ pos 60 +ℤ m) *ℤ pos 60000000000

abbrev pub digest_due : Option (ℤ × ℤ) → ℤ → Bool
digest_due none clock = false
digest_due (some t) clock = not (ltb_ℤ clock (due_at t))

module _ {F : Type 0} where
  -- `eachState` with the closure of `maybeDailyDigest`.
  unfoldable pub current_states : List String → Dict (SensorState F) → Dict String → Dict String
  current_states [] states current = current
  current_states (id ∷ ids) states current = current_states ids states (elim (get_state id states) [
    | none ↦ current
    | some st ↦ update st.sensor_id st.state current
  ])

  abbrev pub changes_since :
      Json → Option (SensorState F) → Dict String → List (String × String × String)
  changes_since json none current = []
  changes_since json (some snap) current =
      if str_eq snap.state ""
      then []
      else elim (json.decode snap.state) [ none ↦ [] | some old ↦ changes old current ]

  -- `digestChanges`, without the sorting of its lines.
  unfoldable pub digest_changes :
      Json → Dict String → Dict (SensorState F) → List (String × String × String)
  digest_changes json current states = changes_since json (get_state digest_snap_id states) current

  abbrev pub note_row : F → ℤ → String → String → SensorState F
  note_row zero_value now id text = record {
    sensor_id = id;
    state = text;
    last_value = zero_value;
    last_utilization = zero_value;
    last_notify_at = some now;
    updated_at = none;
  }

  -- What is written down after the summary was sent: the day, and the snapshot.
  unfoldable pub after_digest :
      F → ℤ → Bool → Json → String → Dict String → Dict (SensorState F) → Dict (SensorState F)
  after_digest zero_value now works json day current states =
      let dated =
        or_same states (set_state now works (note_row zero_value now digest_state_id day) states) in
      or_same dated
        (set_state now works (note_row zero_value now digest_snap_id (json.encode current)) dated)

  abbrev pub send_digest :
      F
      → ℤ
      → Bool
      → Json
      → String
      → Bool
      → Summary
      → Dict (SensorState F)
      → Dict (SensorState F) × Option Summary
  send_digest zero_value now works json day sent s states =
      if sent
      then (after_digest zero_value now works json day s.current states, some s)
      else (states, some s)

  abbrev pub summary_of : Json → List String → Dict (SensorState F) → Summary
  summary_of json ids states = record {
    current = current_states ids states [];
    changed = digest_changes json (current_states ids states []) states;
  }

  -- `maybeDailyDigest`: `due` is the time set, if it is one; `clock` the local time since midnight,
  -- `day` the date as a text. `sent` and `works` say what the notifier and the database do. The
  -- result also has the summary that was posted, if one was.
  unfoldable pub maybe_daily_digest :
      F
      → Json
      → List String
      → Option (ℤ × ℤ)
      → ℤ
      → ℤ
      → String
      → Bool
      → Bool
      → Dict (SensorState F)
      → Dict (SensorState F) × Option Summary
  maybe_daily_digest zero_value json ids due now clock day sent works states =
      if not (digest_due due clock)
      then (states, none)
      else if is_day day (get_state digest_state_id states)
      then (states, none)
      else send_digest zero_value now works json day sent (summary_of json ids states) states
