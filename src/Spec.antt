-- ===== src/Spec.antt =====
-- internal/spec/spec.go: SLO definitions.
pub mod Valid
use slo_sentinel.Prelude.{
  String, ◌&&◌, ◌||◌, not, Option, none, some, List, [], arith, str_eq, if◌then◌else◌, Result, ok,
  err, ◌>>◌, fail_if,
}
use slo_sentinel.Prelude.Int.{ℤ, pos, ltb_ℤ}
use slo_sentinel.Prelude.Float.{Float}
use slo_sentinel.Budget.Types.{Error}
use slo_sentinel.Budget.Engine.{nought, validate}
use slo_sentinel.Capacity.Defs.{Overlay, resolve}
use slo_sentinel.Files.{FileSystem, LoadError, load}

pub record Slo (F : Type 0) : Type 0 where
  pub id : String
  pub service : String
  pub description : String
  pub sli_query : String
  pub objective : F
  pub window_days : ℤ
  pub budget_usd : F
  pub thresholds : Option (Overlay F)

pub data SpecError : Type 0 where
  missing_id missing_query bad_objective negative_window : SpecError
  bad_thresholds : Error → SpecError

-- A window of 0 days becomes 28.
abbrev pub days_or_default : ℤ → ℤ
days_or_default d = if not (ltb_ℤ d (pos 0)) && not (ltb_ℤ (pos 0) d) then pos 28 else d

module _ ⦃fl : Float⦄ where
  open fl use {F, at_most, decimal}

  abbrev pub check_thresholds : Option (Overlay F) → Result SpecError (Unit {0})
  check_thresholds none = ok tt
  check_thresholds (some o) = elim (validate (resolve (some o))) [
    | ok _ ↦ ok tt
    | err e ↦ err (bad_thresholds e)
  ]

  -- `Validate`.
  unfoldable pub validate_slo : Slo F → Result SpecError (Unit {0})
  validate_slo s = do
    fail_if (str_eq s.id "") missing_id
    fail_if (str_eq s.sli_query "") missing_query
    fail_if (at_most s.objective nought || at_most (decimal 100 0) s.objective) bad_objective
    fail_if (ltb_ℤ s.window_days (pos 0)) negative_window
    check_thresholds s.thresholds

  abbrev pub default_window : Slo F → Slo F
  default_window s = record s { window_days = days_or_default s.window_days }

  -- What the loop of `Load` does with one definition.
  unfoldable pub accept_slo : Slo F → Result SpecError (Slo F)
  accept_slo s = validate_slo s >> ok (default_window s)

  unfoldable pub load_slos :
      FileSystem
      → (String → Result String (List (Slo F)))
      → String
      → Result (LoadError SpecError) (List (Slo F))
  load_slos fs decode path = load fs decode accept_slo path
