-- ===== src/Waste/Persist/RoundTrip.antt =====
-- Entries that are written as rows and read back.
use slo_sentinel.Prelude.{◌≡◌, refl, ap, List, [], ◌∷◌, map}
use mathlib.Core.Path.{ap₂}
use slo_sentinel.Prelude.Float.{Float}
use slo_sentinel.Waste.Tracker.{Lifecycle, notified, renoted, dismissed, resolved, Entry}
use slo_sentinel.Waste.Persist.{
  lifecycle_name, lifecycle_of, entry_of_row, entries_from_store, entry_to_store,
}

lifecycle_of-lifecycle_name : (s : Lifecycle) → lifecycle_of (lifecycle_name s) ≡ s
unfolding lifecycle_of
lifecycle_of-lifecycle_name notified = refl
lifecycle_of-lifecycle_name renoted = refl
lifecycle_of-lifecycle_name dismissed = refl
lifecycle_of-lifecycle_name resolved = refl

module _ ⦃fl : Float⦄ where
  open fl use {F}

  entry_of_row-entry_to_store : (e : Entry F) → entry_of_row (entry_to_store e) ≡ e
  unfolding entry_to_store
  entry_of_row-entry_to_store e =
      ap (λ s. record e { state = s }) (lifecycle_of-lifecycle_name e.state)

  -- Entries of the tracker that are made into rows and read back are the entries that they were.
  pub entries_from_store-entry_to_store :
      (es : List (Entry F)) → entries_from_store (map entry_to_store es) ≡ es
  unfolding entries_from_store
  entries_from_store-entry_to_store [] = refl
  entries_from_store-entry_to_store (e ∷ es) =
      ap₂ ◌∷◌ (entry_of_row-entry_to_store e) (entries_from_store-entry_to_store es)
