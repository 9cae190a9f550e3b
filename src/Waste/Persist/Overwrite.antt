-- ===== src/Waste/Persist/Overwrite.antt =====
-- The daemon reads the rows once, when it starts, and writes its entries over them at every scan.
use slo_sentinel.Prelude.{String, Bool, true, false, ◌&&◌, List, [], ◌∷◌, str_eq, if◌then◌else◌}
use slo_sentinel.Prelude.Int.{ℤ, pos, ltb_ℤ}
use slo_sentinel.Prelude.Float.{Float}
use slo_sentinel.Store.WasteRows.{WasteEntry, set_waste_entry}
use slo_sentinel.Waste.Tracker.{Entry, Tracker}
use slo_sentinel.Waste.Persist.{entry_to_store, rows_or}

module _ ⦃fl : Float⦄ where
  open fl use {F}

  -- The entry has the key, and a period after which it is told again: no other can be written.
  abbrev pub matches : String → String → Entry F → Bool
  matches sensor resource e =
      ltb_ℤ (pos 0) e.renotify && (str_eq e.sensor_id sensor && str_eq e.resource_id resource)

  -- There is such an entry under the key.
  abbrev pub has_key : String → String → List (Entry F) → Bool
  has_key sensor resource [] = false
  has_key sensor resource (e ∷ es) =
      let rest = has_key sensor resource es in if matches sensor resource e then true else rest

  abbrev put : ℤ → Entry F → List (WasteEntry F) → List (WasteEntry F)
  put now e rows = rows_or rows (set_waste_entry now true (entry_to_store e) rows)
