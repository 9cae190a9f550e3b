-- ===== src/Store/WasteRows.antt =====
-- internal/store/waste.go: the candidates of the waste scan, keyed by sensor and resource.
use slo_sentinel.Prelude.{
  String, ◌≡◌, refl, Bool, true, ◌&&◌, ◌||◌, not, Option, none, some, List, [], ◌∷◌, arith, str_eq,
  eq_iff, if◌then◌else◌, Result, ok, err,
}
use slo_sentinel.Prelude.Int.{ℤ, pos, ltb_ℤ, ◌*ℤ◌}
use slo_sentinel.Prelude.Float.{Float}
use slo_sentinel.Budget.Engine.{seconds}
use slo_sentinel.Store.States.{StoreError, empty_id, database_failed, or_now}

-- `renotify` is a duration, 0 for a candidate that is told only once. `none` is the zero time.
pub record WasteEntry (F : Type 0) : Type 0 where
  pub sensor_id : String
  pub resource_id : String
  pub reason : String
  pub state : String
  pub first_seen : Option ℤ
  pub last_notified : ℤ
  pub renotify : ℤ
  pub waste_usd_per_day : F
  pub total_waste_usd : F
  pub dismiss_reason : String
  pub dismiss_until : Option ℤ

module _ {F : Type 0} where
  abbrev pub same_key : WasteEntry F → WasteEntry F → Bool
  same_key a b = str_eq a.sensor_id b.sensor_id && str_eq a.resource_id b.resource_id

  unfoldable pub upsert_entry : WasteEntry F → List (WasteEntry F) → List (WasteEntry F)
  upsert_entry e [] = e ∷ []
  upsert_entry e (r ∷ rs) = if same_key r e then e ∷ rs else r ∷ upsert_entry e rs

  pub find_entry : String → String → List (WasteEntry F) → Option (WasteEntry F)
  find_entry sensor resource [] = none
  find_entry sensor resource (r ∷ rs) =
      if str_eq r.sensor_id sensor && str_eq r.resource_id resource
      then some r
      else find_entry sensor resource rs

  pub find_entry-upsert_entry :
      (e : WasteEntry F) (sensor resource : String) (rows : List (WasteEntry F))
      → find_entry sensor resource (upsert_entry e rows) ≡ (
          if str_eq e.sensor_id sensor && str_eq e.resource_id resource
          then some e
          else find_entry sensor resource rows)
  unfolding find_entry upsert_entry
  find_entry-upsert_entry e sensor resource [] = refl
  find_entry-upsert_entry e sensor resource (r ∷ rs) = ground (
    arith,
    eq_iff r.sensor_id e.sensor_id,
    eq_iff r.resource_id e.resource_id,
    eq_iff r.sensor_id sensor,
    eq_iff r.resource_id resource,
    eq_iff e.sensor_id sensor,
    eq_iff e.resource_id resource,
    find_entry-upsert_entry e sensor resource rs,
  )

module _ ⦃fl : Float⦄ where
  open fl use {F, plus, decimal, of_int, to_int}

  -- A period is written as its seconds, and read back by `time.Duration(s)` times a second, so to
  -- whole seconds.
  pub stored_period : ℤ → ℤ
  stored_period d = to_int (seconds d) *ℤ pos 1000000000

  -- What `AllWasteEntries` reads of a row that `SetWasteEntry` wrote.
  abbrev pub as_stored : ℤ → WasteEntry F → WasteEntry F
  as_stored now e = record e {
    first_seen = or_now now e.first_seen;
    renotify = stored_period e.renotify;
  }

  -- `SetWasteEntry`. A period that is not positive is written as NULL, and the column is
  -- `REAL NOT NULL`, so the database refuses the row.
  unfoldable pub set_waste_entry :
      ℤ → Bool → WasteEntry F → List (WasteEntry F) → Result StoreError (List (WasteEntry F))
  set_waste_entry now works e rows =
      if str_eq e.sensor_id "" || str_eq e.resource_id ""
      then err empty_id
      else if not works || not (ltb_ℤ (pos 0) e.renotify)
      then err database_failed
      else ok (upsert_entry (as_stored now e) rows)

  -- `ResolvedWasteSaving`.
  pub resolved_waste_saving : List (WasteEntry F) → F
  resolved_waste_saving [] = decimal 0 0
  resolved_waste_saving (r ∷ rs) =
      let rest = resolved_waste_saving rs in
      if str_eq r.state "resolved" then plus r.total_waste_usd rest else rest

  -- A candidate that a database that works has taken is what is read back under its
  -- key, with the time of writing where it had no first sighting and its period as stored; the row
  -- of every other key is as before.
  pub find_entry-set_waste_entry :
      (now : ℤ) (e : WasteEntry F) (sensor resource : String) (rows after : List (WasteEntry F))
      → set_waste_entry now true e rows ≡ ok after
      → find_entry sensor resource after ≡ (
          if str_eq e.sensor_id sensor && str_eq e.resource_id resource
          then some (as_stored now e)
          else find_entry sensor resource rows)
  unfolding set_waste_entry
  find_entry-set_waste_entry now e sensor resource rows after h =
      let same : upsert_entry (as_stored now e) rows ≡ after = ground arith in
      rw (← same) (find_entry-upsert_entry (as_stored now e) sensor resource rows)
