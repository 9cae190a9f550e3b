-- ===== src/Capacity/Defs.antt =====
-- internal/capacity/defs.go: sensor definitions and their thresholds.
use slo_sentinel.Prelude.{
  String, ◌&&◌, ◌||◌, not, Option, none, some, List, [], ◌∷◌, str_eq, if◌then◌else◌, Result, ok,
  err,
}
use slo_sentinel.Prelude.Int.{ℤ, pos, ltb_ℤ}
use slo_sentinel.Prelude.Float.{Float}
use slo_sentinel.Budget.Types.{Thresholds, default_thresholds, default_horizons}
use slo_sentinel.Files.{FileSystem, LoadError, load}
use slo_sentinel.Promdur.{parse}

pub record Overlay (F : Type 0) : Type 0 where
  pub warn_eta : Option String
  pub crit_eta : Option String
  pub soft_ratio : Option F
  pub crit_ratio : Option F

pub record Def (F : Type 0) : Type 0 where
  pub id : String
  pub desc : String
  pub metric_value : String
  pub metric_ceiling : String
  pub horizons : List ℤ
  pub thresholds : Option (Overlay F)
  pub service : String
  pub scope : String
  pub cluster : String

pub data DefError : Type 0 where
  missing_id missing_metric : DefError

abbrev pub horizon_durations : {F : Type 0} → Def F → List ℤ
horizon_durations d = elim d.horizons [ [] ↦ default_horizons | h ∷ hs ↦ h ∷ hs ]

-- `UnmarshalYAML` of a horizon, from the parsed duration of its text.
pub horizon_of : ℤ → String → Result String ℤ
horizon_of d text =
    if not (ltb_ℤ (pos 0) d) && not (str_eq text "") && not (str_eq text "0")
    then err text
    else ok d

-- The checks that `LoadDefs` makes on each definition.
unfoldable pub check_def : {F : Type 0} → Def F → Result DefError (Def F)
check_def d =
    if str_eq d.id ""
    then err missing_id
    else if str_eq d.metric_value "" || str_eq d.metric_ceiling ""
    then err missing_metric
    else ok d

unfoldable pub load_defs :
    {F : Type 0}
    → FileSystem
    → (String → Result String (List (Def F)))
    → String
    → Result (LoadError DefError) (List (Def F))
load_defs fs decode path = load fs decode check_def path

module _ ⦃fl : Float⦄ where
  open fl use {F}

  abbrev pub eta_or : Option String → ℤ → ℤ
  eta_or none def = def
  eta_or (some text) def = if ltb_ℤ (pos 0) (parse text) then parse text else def

  abbrev pub ratio_or : Option F → F → F
  ratio_or none def = def
  ratio_or (some r) def = r

  -- `Resolve`, of the SLO overlays too, which have the same fields.
  unfoldable pub resolve : Option (Overlay F) → Thresholds F
  resolve none = default_thresholds
  resolve (some o) =
      let th = default_thresholds in
      record {
        warn_eta = eta_or o.warn_eta th.warn_eta;
        crit_eta = eta_or o.crit_eta th.crit_eta;
        soft_ratio = ratio_or o.soft_ratio th.soft_ratio;
        crit_ratio = ratio_or o.crit_ratio th.crit_ratio;
      }
