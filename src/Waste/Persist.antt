-- ===== src/Waste/Persist.antt =====
-- cmd/sentinel/daemon.go `runWasteScan` and `persistWasteEntries`, and cmd/sentinel/waste_cli.go: the
-- tracker's entries in the database, as the daemon and the command line write them.
pub mod RoundTrip
pub mod Overwrite
use slo_sentinel.Prelude.{
  ℕ, suc, String, Bool, not, Option, none, some, List, [], ◌∷◌, str_eq, if◌then◌else◌, Result, ok,
  err, ◌>>=◌, ◌>>◌,
}
use slo_sentinel.Prelude.Int.{ℤ, pos, negsuc, ltb_ℤ}
use slo_sentinel.Prelude.Dict.{Dict, lookup}
use slo_sentinel.Prelude.Float.{Float}
use slo_sentinel.Catalog.Types.{Catalog}
use slo_sentinel.Pricing.Rates.{sort_strings, keys}
use slo_sentinel.Query.{Source}
use slo_sentinel.Store.States.{StoreError}
use slo_sentinel.Store.WasteRows.{WasteEntry, set_waste_entry}
use slo_sentinel.Waste.Scanner.{Found, Pricer, Decoders, scan}
use slo_sentinel.Waste.Tracker.{
  Lifecycle, notified, renoted, dismissed, resolved, Entry, Tracker, Message, TrackerError,
  new_tracker, observe, dismiss, resolve, restore,
}

abbrev pub lifecycle_name : Lifecycle → String
lifecycle_name notified = "notified"
lifecycle_name renoted = "renoted"
lifecycle_name dismissed = "dismissed"
lifecycle_name resolved = "resolved"

-- A text that is none of the four, which nothing writes, is `notified` here.
pub lifecycle_of : String → Lifecycle
lifecycle_of s =
    if str_eq s "renoted"
    then renoted
    else if str_eq s "dismissed"
    then dismissed
    else if str_eq s "resolved"
    then resolved
    else notified

-- The zero time, in nanoseconds from 1970.
abbrev pub zero_time : ℤ
zero_time = negsuc 62135596799999999999

abbrev pub time_or_zero : Option ℤ → ℤ
time_or_zero none = zero_time
time_or_zero (some t) = t

pub data CliError : Type 0 where
  usage : CliError
  tracker_refused : TrackerError → CliError
  not_written : StoreError → CliError

module _ {F : Type 0} where
  abbrev pub entries_at : List String → Dict (Entry F) → List (Entry F)
  entries_at [] es = []
  entries_at (k ∷ ks) es =
      let rest = entries_at ks es in elim (lookup k es) [ none ↦ rest | some e ↦ e ∷ rest ]

  -- `Entries`: in the order of the keys.
  unfoldable pub entries : Tracker F → List (Entry F)
  entries t = entries_at (sort_strings (keys t.entries)) t.entries

  abbrev pub entry_of_row : WasteEntry F → Entry F
  entry_of_row r = record {
    sensor_id = r.sensor_id;
    resource_id = r.resource_id;
    reason = r.reason;
    state = lifecycle_of r.state;
    first_seen = time_or_zero r.first_seen;
    last_notified = r.last_notified;
    renotify = r.renotify;
    waste_usd_per_day = r.waste_usd_per_day;
    total_waste_usd = r.total_waste_usd;
    dismiss_reason = r.dismiss_reason;
    dismiss_until = r.dismiss_until;
  }

  -- `entriesFromStore`.
  pub entries_from_store : List (WasteEntry F) → List (Entry F)
  entries_from_store [] = []
  entries_from_store (r ∷ rs) = entry_of_row r ∷ entries_from_store rs

  -- `countResolved`.
  pub count_resolved : List (WasteEntry F) → ℕ
  count_resolved [] = 0
  count_resolved (r ∷ rs) =
      let rest = count_resolved rs in if str_eq r.state "resolved" then suc rest else rest

module _ ⦃fl : Float⦄ where
  open fl use {F, plus}

  -- `entryToStore`.
  pub entry_to_store : Entry F → WasteEntry F
  entry_to_store e = record {
    sensor_id = e.sensor_id;
    resource_id = e.resource_id;
    reason = e.reason;
    state = lifecycle_name e.state;
    first_seen = some e.first_seen;
    last_notified = e.last_notified;
    renotify = e.renotify;
    waste_usd_per_day = e.waste_usd_per_day;
    total_waste_usd = e.total_waste_usd;
    dismiss_reason = e.dismiss_reason;
    dismiss_until = e.dismiss_until;
  }

  abbrev pub rows_or :
      List (WasteEntry F) → Result StoreError (List (WasteEntry F)) → List (WasteEntry F)
  rows_or rows (ok after) = after
  rows_or rows (err e) = rows

  -- `persistWasteEntries`: a row that fails is logged, and the others are written.
  pub persist_all :
      ℤ → (Entry F → Bool) → List (Entry F) → List (WasteEntry F) → List (WasteEntry F)
  persist_all now works [] rows = rows
  persist_all now works (e ∷ es) rows =
      persist_all now works es
        (rows_or rows (set_waste_entry now (works e) (entry_to_store e) rows))

  pub persist_waste_entries :
      ℤ → (Entry F → Bool) → Tracker F → List (WasteEntry F) → List (WasteEntry F)
  persist_waste_entries now works t rows = persist_all now works (entries t) rows

  -- `syncTracker` of the command line: the first row that fails ends the program.
  pub sync_all :
      ℤ
      → (Entry F → Bool)
      → List (Entry F)
      → List (WasteEntry F)
      → Result StoreError (List (WasteEntry F))
  sync_all now works [] rows = ok rows
  sync_all now works (e ∷ es) rows =
      set_waste_entry now (works e) (entry_to_store e) rows >>= sync_all now works es

  module _ (join : String → String → String) where
    -- `loadTracker`, of a database that answers.
    pub load_tracker : List (WasteEntry F) → Tracker F
    load_tracker rows = restore join (entries_from_store rows) new_tracker

    -- The loop of `runWasteScan` over the candidates: a message is sent once, whether or not it
    -- arrives, and its entry keeps the time of it.
    pub observe_all : ℤ → List (Found F) → Tracker F → Tracker F × List Message
    observe_all now [] t = (t, [])
    observe_all now (c ∷ cs) t =
        let (t', message) = observe join now c.seen t in
        let (last, messages) = observe_all now cs t' in
        (last, elim message [ none ↦ messages | some m ↦ m ∷ messages ])

    -- `runWasteScan` of a daemon with a catalog and a tracker.
    pub run_waste_scan :
        Source F
        → Pricer F
        → Decoders F
        → ℤ
        → (Entry F → Bool)
        → ℤ
        → Catalog
        → Tracker F
        → List (WasteEntry F)
        → (Tracker F × List Message) × List (WasteEntry F)
    run_waste_scan src p dec interval works now cat t rows =
        let after = observe_all now (scan src p dec now cat) t in
        if not (ltb_ℤ (pos 0) interval)
        then ((t, []), rows)
        else (after, persist_waste_entries now works after.0 rows)

    abbrev pub written :
        ℤ
        → (Entry F → Bool)
        → List (WasteEntry F)
        → Result TrackerError (Tracker F)
        → Result CliError (List (WasteEntry F))
    written now works rows (err e) = err (tracker_refused e)
    written now works rows (ok t) = elim (sync_all now works (entries t) rows) [
      | ok after ↦ ok after
      | err e ↦ err (not_written e)
    ]

    -- `wasteDismiss` of the arguments that are left once the flags are parsed; `until` is the end of
    -- the delay, if one is set.
    pub waste_dismiss :
        ℤ
        → (Entry F → Bool)
        → List String
        → String
        → Option ℤ
        → List (WasteEntry F)
        → Result CliError (List (WasteEntry F))
    waste_dismiss now works (resource ∷ []) reason until rows =
        written now works rows (dismiss resource reason until (load_tracker rows))
    waste_dismiss now works _ reason until rows = err usage

    -- `wasteResolve`.
    pub waste_resolve :
        ℤ
        → (Entry F → Bool)
        → List String
        → List (WasteEntry F)
        → Result CliError (List (WasteEntry F))
    waste_resolve now works (resource ∷ []) rows =
        written now works rows (resolve resource (load_tracker rows))
    waste_resolve now works _ rows = err usage
