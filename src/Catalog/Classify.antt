-- ===== src/Catalog/Classify.antt =====
-- internal/catalog/loader.go: `Classify`.
use slo_sentinel.Prelude.{
  ℕ, String, Bool, true, false, ◌||◌, not, Option, none, some, List, [], ◌∷◌, if◌then◌else◌,
}
use slo_sentinel.Prelude.Dict.{Dict, lookup}
use slo_sentinel.Prelude.Text.{codes, is_empty, same_text, has_prefix}
use slo_sentinel.Promdur.{trim_space}
use slo_sentinel.Catalog.Types.{Kind, budget, capacity, waste, none_kind, Rule, text_at}

abbrev pub any_sloth : Dict String → Bool
any_sloth [] = false
any_sloth ((k, v) ∷ m) = has_prefix (codes k) (codes "sloth") || any_sloth m

-- The kind that a label names, once its spaces are trimmed.
pub kind_of_text : List ℕ → Kind
kind_of_text v =
    if same_text v (codes "budget")
    then budget
    else if same_text v (codes "capacity")
    then capacity
    else if same_text v (codes "waste")
    then waste
    else none_kind

abbrev pub has_note : Option String → Bool
has_note none = false
has_note (some v) = true

pub classify : Rule → Kind
classify r =
    let v = trim_space (codes (text_at "sentinel_kind" r.labels)) in
    if not (is_empty v)
    then kind_of_text v
    else if any_sloth r.labels
    then budget
    else if has_prefix (codes r.record_name) (codes "sentinel_")
    then capacity
    else if has_note (lookup "sentinel_sensor" r.annotations)
    then capacity
    else none_kind
