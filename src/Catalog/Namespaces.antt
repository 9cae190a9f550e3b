-- ===== src/Catalog/Namespaces.antt =====
-- internal/catalog/types.go: the list of excluded name spaces of a rule.
pub mod Splits
use slo_sentinel.Prelude.{ℕ, List, [], ◌∷◌, if◌then◌else◌}
use slo_sentinel.Prelude.Text.{codes, is_empty, split_on}
use slo_sentinel.Promdur.{trim_space}
use slo_sentinel.Catalog.Types.{Rule, text_at}

abbrev pub kept_part : List ℕ → List (List ℕ) → List (List ℕ)
kept_part part rest = if is_empty part then rest else part ∷ rest

pub trimmed_parts : List (List ℕ) → List (List ℕ)
trimmed_parts [] = []
trimmed_parts (p ∷ ps) = kept_part (trim_space p) (trimmed_parts ps)

-- `splitComma`.
unfoldable pub split_comma : List ℕ → List (List ℕ)
split_comma s = trimmed_parts (split_on b',' s)

-- `ExcludeNamespaces`.
pub exclude_namespaces : Rule → List (List ℕ)
exclude_namespaces r =
    let v = codes (text_at "sentinel_exclude_namespaces" r.labels) in
    if is_empty v then [] else split_comma v
