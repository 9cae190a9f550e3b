-- ===== src/Waste/Tracker.antt =====
-- internal/waste/tracker.go: the life of a candidate, from its first message to its resolution.
-- The entries are a map by "<sensor>/<resource>"; time is in nanoseconds, `none` the zero time.
pub mod Silence
pub mod Saving
use slo_sentinel.Prelude.{
  String, Bool, true, false, ◌&&◌, not, Option, none, some, List, [], ◌∷◌, map, str_eq,
  if◌then◌else◌, Result, ok, err,
}
use mathlib.Core.Option
use slo_sentinel.Prelude.Int.{ℤ, pos, ltb_ℤ, ◌-ℤ◌}
use slo_sentinel.Prelude.Dict.{Dict, lookup, update}
use slo_sentinel.Prelude.Float.{Float}
use slo_sentinel.Budget.Engine.{seconds}

pub data Lifecycle : Type 0 where
  notified renoted dismissed resolved : Lifecycle

pub record Entry (F : Type 0) : Type 0 where
  pub sensor_id : String
  pub resource_id : String
  pub reason : String
  pub state : Lifecycle
  pub first_seen : ℤ
  pub last_notified : ℤ
  pub renotify : ℤ
  pub waste_usd_per_day : F
  pub total_waste_usd : F
  pub dismiss_reason : String
  pub dismiss_until : Option ℤ

pub record Tracker (F : Type 0) : Type 0 where
  pub entries : Dict (Entry F)
  pub resolved_saving : F

-- What `Observe` reads of a `Candidate`.
pub record Candidate (F : Type 0) : Type 0 where
  pub sensor_id : String
  pub alert_name : String
  pub reason : String
  pub wasted_cost : F
  pub renotify : ℤ
  pub labels : Dict String

-- The kinds of message that `Observe` returns, without their texts.
pub data Message : Type 0 where
  first_message : Message
  again_message : Message
  revived_message : Message

pub data TrackerError : Type 0 where
  no_resource : TrackerError

pub resource_key : {F : Type 0} → Candidate F → String
resource_key c = elim (lookup "resource" c.labels) [
  | some v ↦ if str_eq v "" then c.alert_name else v
  | none ↦ c.alert_name
]

abbrev pub is_resolved : Lifecycle → Bool
is_resolved resolved = true
is_resolved _ = false

abbrev pub is_past : Option ℤ → ℤ → Bool
is_past none now = false
is_past (some until) now = ltb_ℤ until now

module _ ⦃fl : Float⦄ where
  open fl use {F, plus, times, over, less, decimal}

  pub new_tracker : Tracker F
  new_tracker = record { entries = []; resolved_saving = decimal 0 0 }

  pub new_entry : ℤ → Candidate F → Entry F
  new_entry now c = record {
    sensor_id = c.sensor_id;
    resource_id = resource_key c;
    reason = c.reason;
    state = notified;
    first_seen = now;
    last_notified = now;
    renotify = c.renotify;
    waste_usd_per_day = decimal 0 0;
    total_waste_usd = decimal 0 0;
    dismiss_reason = "";
    dismiss_until = none;
  }

  -- The waste since the last message is added, at each observation.
  pub accrued : ℤ → Candidate F → Entry F → F
  accrued now c e =
      let elapsed = now -ℤ e.last_notified in
      if ltb_ℤ (pos 0) elapsed && less (decimal 0 0) c.wasted_cost
      then plus e.total_waste_usd
          (over (times c.wasted_cost (over (seconds elapsed) (decimal 3600 0))) (decimal 24 0))
      else e.total_waste_usd

  -- A dismissed entry comes back when its deadline is past.
  pub observe_dismissed : ℤ → Entry F → Entry F × Option Message
  observe_dismissed now e =
      if is_past e.dismiss_until now
      then (
        record e { state = renoted; last_notified = now; dismiss_until = none },
        some revived_message,
      )
      else (record e { last_notified = now }, none)

  pub observe_open : ℤ → ℤ → Entry F → Entry F × Option Message
  observe_open now elapsed e =
      if ltb_ℤ (pos 0) e.renotify && not (ltb_ℤ elapsed e.renotify)
      then (record e { state = renoted; last_notified = now }, some again_message)
      else (e, none)

  pub observe_by_state : Lifecycle → ℤ → ℤ → Entry F → Entry F × Option Message
  observe_by_state dismissed now elapsed e = observe_dismissed now e
  observe_by_state notified now elapsed e = observe_open now elapsed e
  observe_by_state renoted now elapsed e = observe_open now elapsed e
  observe_by_state resolved now elapsed e = observe_open now elapsed e

  -- `Observe` of a candidate whose entry is there.
  pub observe_entry : ℤ → Candidate F → Entry F → Entry F × Option Message
  observe_entry now c e =
      observe_by_state e.state now (now -ℤ e.last_notified)
        (record e { total_waste_usd = accrued now c e })

  pub observe_found : ℤ → Candidate F → Option (Entry F) → Entry F × Option Message
  observe_found now c none = (new_entry now c, some first_message)
  observe_found now c (some e) = observe_entry now c e

  -- `Observe`: the key is `join` of the sensor's and the resource's ids.
  pub observe :
      (String → String → String) → ℤ → Candidate F → Tracker F → Tracker F × Option Message
  observe join now c t =
      let key = join c.sensor_id (resource_key c) in
      let (e, message) = observe_found now c (lookup key t.entries) in
      (record t { entries = update key e t.entries }, message)

  -- `Dismiss`: the first entry of the resource, in the order in which the map is read.
  pub dismiss_in : String → String → Option ℤ → Dict (Entry F) → Option (Dict (Entry F))
  dismiss_in resource reason until [] = none
  dismiss_in resource reason until ((k, e) ∷ es) =
      let rest = dismiss_in resource reason until es in
      if str_eq e.resource_id resource
      then some
          ((k, record e { state = dismissed; dismiss_reason = reason; dismiss_until = until }) ∷ es)
      else Option.map (λ es'. (k, e) ∷ es') rest

  abbrev put_entries : Tracker F → Option (Dict (Entry F)) → Result TrackerError (Tracker F)
  put_entries t none = err no_resource
  put_entries t (some es) = ok (record t { entries = es })

  pub dismiss : String → String → Option ℤ → Tracker F → Result TrackerError (Tracker F)
  dismiss resource reason until t = put_entries t (dismiss_in resource reason until t.entries)

  -- `Resolve`: the first entry of the resource that is not resolved, and its waste so far.
  pub resolve_in : String → Dict (Entry F) → Option (Dict (Entry F) × F)
  resolve_in resource [] = none
  resolve_in resource ((k, e) ∷ es) =
      let rest = resolve_in resource es in
      if str_eq e.resource_id resource && not (is_resolved e.state)
      then some ((k, record e { state = resolved }) ∷ es, e.total_waste_usd)
      else Option.map (λ (r : Dict (Entry F) × F). ((k, e) ∷ r.0, r.1)) rest

  abbrev put_resolved : Tracker F → Option (Dict (Entry F) × F) → Result TrackerError (Tracker F)
  put_resolved t none = err no_resource
  put_resolved t (some (es, saving)) =
      ok (record { entries = es; resolved_saving = plus t.resolved_saving saving })

  pub resolve : String → Tracker F → Result TrackerError (Tracker F)
  resolve resource t = put_resolved t (resolve_in resource t.entries)

  -- `Restore`.
  pub restored_saving : F → List (Entry F) → F
  restored_saving saving [] = saving
  restored_saving saving (e ∷ es) =
      restored_saving (if is_resolved e.state then plus saving e.total_waste_usd else saving) es

  pub put_all : (String → String → String) → List (Entry F) → Dict (Entry F) → Dict (Entry F)
  put_all join [] table = table
  put_all join (e ∷ es) table = put_all join es (update (join e.sensor_id e.resource_id) e table)

  pub restore : (String → String → String) → List (Entry F) → Tracker F → Tracker F
  restore join es t =
      let saving = restored_saving (decimal 0 0) es in
      record {
        entries = put_all join es t.entries;
        resolved_saving = if less t.resolved_saving saving then saving else t.resolved_saving;
      }
