-- ===== src/Generator.antt =====
-- cmd/sentinel-gen/validate.go: the static review of a definition file, with the loaders of the
-- daemon. The texts of the faults are values. The directory to which a rule file is copied, and what
-- the rule loader then finds in it, are parameters, as is the JSON decoder.
pub mod Reviews
use slo_sentinel.Prelude.{
  ℕ, String, Bool, ◌&&◌, ◌||◌, not, List, [], ◌∷◌, ◌++◌, str_eq, if◌then◌else◌, Result, ok, err,
}
use slo_sentinel.Prelude.Float.{Float}
use slo_sentinel.Prelude.Text.{codes, has_prefix}
use slo_sentinel.Promdur.{trim_space}
use slo_sentinel.Budget.Types.{Error}
use slo_sentinel.Budget.Engine.{validate}
use slo_sentinel.Files.{FileSystem, LoadError}
use slo_sentinel.Capacity.Defs.{Def, DefError, load_defs, resolve}
use slo_sentinel.Spec.{Slo, SpecError, load_slos}
use slo_sentinel.Catalog.Types.{Rule, waste, text_at, rule_id, rules_of_kind}
use slo_sentinel.Catalog.Load.{RuleFile, Quarantine, load_catalog}

-- `strings.Contains` on characters.
unfoldable pub contains : List ℕ → List ℕ → Bool
contains part [] = has_prefix part []
contains part (c ∷ cs) = has_prefix part (c ∷ cs) || contains part cs

-- `detectKind`; 10 is the line break.
abbrev pub line_start : List ℕ → List ℕ → Bool
line_start word content = contains (10 ∷ word) content

unfoldable pub detect_kind : String → String
detect_kind content =
    if line_start (codes "sensors:") (codes content)
      || has_prefix (codes "sensors:") (trim_space (codes content))
    then "capacity"
    else if line_start (codes "slos:") (codes content)
        || has_prefix (codes "slos:") (trim_space (codes content))
        || (line_start (codes "- id:") (codes content)
            && contains (codes "sli_query") (codes content))
    then "slo"
    else "waste"

pub data Level : Type 0 where
  error_level warn_level : Level

pub data Fault : Type 0 where
  bad_capacity : LoadError DefError → Fault
  bad_slo : LoadError SpecError → Fault
  bad_rules : String → Fault
  no_sensors no_slos no_waste_rules : Fault
  bad_thresholds : Error → Fault
  bad_attrs : Fault

-- `issue`.
pub record Issue : Type 0 where
  pub level : Level
  pub place : String
  pub fault : Fault

pub data ReviewError : Type 0 where
  not_copied : String → ReviewError
  unknown_kind : String → ReviewError

abbrev pub an_error : String → Fault → Issue
an_error place fault = record { level = error_level; place = place; fault = fault }

-- The issue of a file that defines nothing.
abbrev pub if_none {ℓ} : {A : Type ℓ} → List A → Issue → List Issue
if_none [] issue = issue ∷ []
if_none (a ∷ later) issue = []

-- What a review reads of a rule file: that it could not be copied, or what the loader's walk over the
-- copy finds, where that does not fail.
abbrev pub Copy : Type 0
Copy = Result String (Result String (List RuleFile))

pub quarantine_issues : List Quarantine → List Issue
quarantine_issues [] = []
quarantine_issues (q ∷ qs) = an_error q.path (bad_rules q.reason) ∷ quarantine_issues qs

module _ ⦃fl : Float⦄ where
  open fl use {F}

  abbrev pub threshold_issues : String → Result Error (Unit {0}) → List Issue
  threshold_issues id (ok _) = []
  threshold_issues id (err e) = an_error id (bad_thresholds e) ∷ []

  unfoldable pub def_issues : List (Def F) → List Issue
  def_issues [] = []
  def_issues (d ∷ ds) = threshold_issues d.id (validate (resolve d.thresholds)) ++ def_issues ds

  -- The case `capacity`.
  unfoldable pub review_sensors : String → Result (LoadError DefError) (List (Def F)) → List Issue
  review_sensors path (err e) = an_error path (bad_capacity e) ∷ []
  review_sensors path (ok defs) = if_none defs (an_error path no_sensors) ++ def_issues defs

  -- The case `slo`.
  unfoldable pub review_slos : String → Result (LoadError SpecError) (List (Slo F)) → List Issue
  review_slos path (err e) = an_error path (bad_slo e) ∷ []
  review_slos path (ok slos) = if_none slos (an_error path no_slos)

  module _ (is_object : String → Bool) where
    pub attrs_issues : List Rule → List Issue
    attrs_issues [] = []
    attrs_issues (r ∷ rs) =
        let rest = attrs_issues rs in
        let attrs = text_at "sentinel_price_attrs" r.labels in
        if not (str_eq attrs "") && not (is_object attrs)
        then an_error (rule_id r) bad_attrs ∷ rest
        else rest

    abbrev pub catalog_issues : String → Result String (List RuleFile) → List Issue
    catalog_issues path (err e) = an_error path (bad_rules e) ∷ []
    catalog_issues path (ok files) =
        let (cat, quarantined) = load_catalog files "" in
        let wastes = rules_of_kind waste cat in
        quarantine_issues quarantined
        ++ if_none wastes (record { level = warn_level; place = path; fault = no_waste_rules })
        ++ attrs_issues wastes

    -- The case `waste` of `staticValidate`.
    unfoldable pub review_rules : String → Copy → Result ReviewError (List Issue)
    review_rules path (err e) = err (not_copied e)
    review_rules path (ok found) = ok (catalog_issues path found)

    module _ (fs : FileSystem) (decode_defs : String → Result String (List (Def F)))
        (decode_slos : String → Result String (List (Slo F))) where
      -- `staticValidate`.
      unfoldable pub static_validate : Copy → String → String → Result ReviewError (List Issue)
      static_validate copy path kind =
          if str_eq kind "capacity"
          then ok (review_sensors path (load_defs fs decode_defs path))
          else if str_eq kind "slo"
          then ok (review_slos path (load_slos fs decode_slos path))
          else if str_eq kind "waste"
          then review_rules path copy
          else err (unknown_kind kind)
