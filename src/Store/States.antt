-- ===== src/Store/States.antt =====
-- internal/store/sensors.go: the latest state of each sensor.
use slo_sentinel.Prelude.{
  String, ◌≡◌, ◌≢◌, Bool, true, false, not, Option, none, some, List, [], ◌∷◌, arith, str_eq,
  if◌then◌else◌, Result, ok, err,
}
use slo_sentinel.Prelude.Int.{ℤ}
use slo_sentinel.Prelude.Dict.{Dict, lookup, update, lookup-update}

-- `state` is a text: the daemon keeps its own keys in this table too. `none` is the zero time.
pub record SensorState (F : Type 0) : Type 0 where
  pub sensor_id : String
  pub state : String
  pub last_value : F
  pub last_utilization : F
  pub last_notify_at : Option ℤ
  pub updated_at : Option ℤ

pub data StoreError : Type 0 where
  empty_id : StoreError
  database_failed : StoreError

abbrev pub or_now : ℤ → Option ℤ → Option ℤ
or_now now none = some now
or_now now (some t) = some t

-- `SetState`: `works` says whether the database executes the statement, an upsert by `sensor_id`.
unfoldable pub set_state :
    {F : Type 0}
    → ℤ
    → Bool
    → SensorState F
    → Dict (SensorState F)
    → Result StoreError (Dict (SensorState F))
set_state now works st table =
    if str_eq st.sensor_id ""
    then err empty_id
    else if not works
    then err database_failed
    else ok (update st.sensor_id (record st { updated_at = or_now now st.updated_at }) table)

-- `GetState` of a database that answers; `none` where the sensor has no row.
unfoldable pub get_state : {F : Type 0} → String → Dict (SensorState F) → Option (SensorState F)
get_state sensor_id table = lookup sensor_id table

-- `AllStates`, but for its order.
abbrev pub StateRow : Type 0 → Type 0
StateRow F = String × String × F × Option ℤ

pub all_states : {F : Type 0} → Dict (SensorState F) → List (StateRow F)
all_states [] = []
all_states ((id, st) ∷ table) = (id, st.state, st.last_value, st.updated_at) ∷ all_states table

-- Where the id is not empty and the database works, a state that was written is what is read back
-- for its sensor, with the time of writing where it had none, and no other sensor's row changes.
pub get_state-set_state :
    {F : Type 0} (now : ℤ) (st : SensorState F) (table after : Dict (SensorState F))
    (other : String)
    → set_state now true st table ≡ ok after
    → get_state other after ≡ (
        if str_eq st.sensor_id other
        then some (record st { updated_at = or_now now st.updated_at })
        else get_state other table)
unfolding set_state get_state
get_state-set_state now st table after other h =
    let same : update st.sensor_id (record st { updated_at = or_now now st.updated_at }) table
        ≡ after =
      ground arith in
    rw (← same) (lookup-update st.sensor_id other _ table)

pub set_state-works :
    {F : Type 0} (now : ℤ) (st : SensorState F) (table : Dict (SensorState F)) (e : StoreError)
    → str_eq st.sensor_id "" ≡ false
    → set_state now true st table ≢ err e
unfolding set_state
set_state-works now st table e named h = ground (arith, named, h)
