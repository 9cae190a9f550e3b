-- ===== src/Examples/Reports.antt =====
-- Runs of the daemon's summaries and setup, and of the waste entries on disk.
use slo_sentinel.Prelude.{
  ◌↔◌, ℕ, zero, suc, ◌+◌, ◌-◌, ◌*◌, ◌/◌, ◌%◌, ◌^◌, ◌≤◌, ◌<◌, String, ◌≡◌, refl, sym, ap, ◌∙◌, subst,
  ◌≢◌, ◌↔◌, ◌⊎◌, inl, inr, Bool, true, ◌&&◌, ◌||◌, not, Option, none, some, List, [], ◌∷◌, ◌++◌,
  map, arith, str_eq, eq_iff, ltb, leb, ◌==◌, if◌then◌else◌, ltb→lt, lt→ltb, leb→le, ==_iff,
  Bool-cases, Option-cases, length, get_elem?, get_or, take, drop, replicate, length-append, Result,
  ◌>>=◌, ◌>>◌, fail_if, >>=-eq-ok, Result-cases, fail_if-eq-ok,
}
use slo_sentinel.Prelude.Int.{ℤ, pos}
use slo_sentinel.Prelude.Dict.{Dict}
use slo_sentinel.Store.States.{SensorState, get_state}
use slo_sentinel.Store.WasteRows.{WasteEntry}
use slo_sentinel.Daemon.Digest.{
  Summary, Json, changes, digest_changes, after_digest, maybe_daily_digest,
}
use slo_sentinel.Daemon.Digest.Once.{maybe_daily_digest_once}
use slo_sentinel.Daemon.Digest.Changes.{Among, IsChange, digest_changes_lem}
use slo_sentinel.Daemon.Setup.{Sensors, slo_step}
use slo_sentinel.Waste.Tracker.{Tracker, Entry, notified}
use slo_sentinel.Waste.Persist.{entries}

-- Snapshots of at most one sensor, whose JSON is its state.
abbrev one_state : Json
one_state = record {
  encode = λ m. elim m [ [] ↦ "none" | ◌∷◌ e es ↦ e.1 ];
  decode = λ s. some (("disk", s) ∷ []);
}

abbrev disk_row : SensorState ℤ
disk_row = record {
  sensor_id = "disk";
  state = "warning";
  last_value = pos 0;
  last_utilization = pos 0;
  last_notify_at = none;
  updated_at = none;
}

abbrev first_states : Dict (SensorState ℤ)
first_states = ("disk", disk_row) ∷ []

abbrev first_summary : Summary
first_summary = record { current = ("disk", "warning") ∷ []; changed = [] }

abbrev states_after : Dict (SensorState ℤ)
states_after =
    after_digest (pos 0) (pos 5) true one_state "2026-01-02" (("disk", "warning") ∷ []) first_states

digest_sent :
    maybe_daily_digest
      (pos 0)
      one_state
      ("disk" ∷ [])
      (some (pos 9, pos 30))
      (pos 5)
      (pos 40000000000000)
      "2026-01-02"
      true
      true
      first_states
    ≡ (states_after, some first_summary)
unfolding maybe_daily_digest slo_sentinel.Prelude.Int.◌*ℤ◌ slo_sentinel.Prelude.Int.◌+ℤ◌ get_state
    slo_sentinel.Prelude.Dict.lookup slo_sentinel.Daemon.Digest.current_states digest_changes
    slo_sentinel.Prelude.Dict.update
digest_sent = refl

maybe_daily_digest_once_example :
    maybe_daily_digest
      (pos 0)
      one_state
      ("disk" ∷ [])
      (some (pos 9, pos 30))
      (pos 6)
      (pos 50000000000000)
      "2026-01-02"
      true
      true
      states_after
    ≡ (states_after, none)
maybe_daily_digest_once_example =
    maybe_daily_digest_once (pos 0) one_state ("disk" ∷ []) (some (pos 9, pos 30)) (pos 5)
      (pos 40000000000000) (pos 6) (pos 50000000000000) "2026-01-02" true true first_summary
      first_states states_after digest_sent

digest_changes_lem_example :
    Among
      ("disk", "warning", "healthy")
      (digest_changes one_state (("disk", "healthy") ∷ []) states_after)
    ↔ IsChange first_summary.current (("disk", "healthy") ∷ []) ("disk", "warning", "healthy")
digest_changes_lem_example =
    digest_changes_lem (pos 0) one_state ("disk" ∷ []) (some (pos 9, pos 30)) (pos 5)
      (pos 40000000000000) "2026-01-02" first_summary first_states states_after
      (("disk", "healthy") ∷ []) ("disk", "warning", "healthy") digest_sent refl refl

four_weeks : slo_step (pos 2419200000000000) ≡ pos 241000000000
unfolding slo_step slo_sentinel.Prelude.Int.◌*ℤ◌ slo_sentinel.Prelude.Int.◌/ℤ◌
four_weeks = refl

abbrev no_sensors : Sensors ℤ
no_sensors = record { runners = []; meta = []; cap_defs = [] }

abbrev an_entry : Entry ℤ
an_entry = record {
  sensor_id = "idle";
  resource_id = "i-1";
  reason = "";
  state = notified;
  first_seen = pos 1;
  last_notified = pos 1;
  renotify = pos 86400000000000;
  waste_usd_per_day = pos 0;
  total_waste_usd = pos 0;
  dismiss_reason = "";
  dismiss_until = none;
}

abbrev one_entry : Tracker ℤ
one_entry = record { entries = ("idle/i-1", an_entry) ∷ []; resolved_saving = pos 0 }

-- The row that a dismissal on the command line has left.
abbrev dismissed_row : WasteEntry ℤ
dismissed_row = record {
  sensor_id = "idle";
  resource_id = "i-1";
  reason = "";
  state = "dismissed";
  first_seen = some (pos 1);
  last_notified = pos 1;
  renotify = pos 86400000000000;
  waste_usd_per_day = pos 0;
  total_waste_usd = pos 0;
  dismiss_reason = "in use";
  dismiss_until = none;
}

-- The same candidate, told only once.
abbrev told_once : Tracker ℤ
told_once = record {
  entries = ("idle/i-1", record an_entry { renotify = pos 0 }) ∷ [];
  resolved_saving = pos 0;
}
