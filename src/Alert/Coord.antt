-- ===== src/Alert/Coord.antt =====
-- internal/alert/dedupe.go: whether AlertManager already fires for a sensor (`AMCoord`).
use slo_sentinel.Prelude.{
  String, Bool, true, false, ◌&&◌, not, List, [], ◌∷◌, str_eq, if◌then◌else◌, Result, ok, err,
}
use slo_sentinel.Prelude.Dict.{Dict}

pub record AmAlert : Type 0 where
  pub state : String
  pub labels : Dict String

module _ (contains : String → String → Bool) where
  any_label : String → Dict String → Bool
  any_label filter [] = false
  any_label filter ((k, v) ∷ labels) =
      if not (str_eq filter "") && contains v filter then true else any_label filter labels

  -- The loop of `HasFiringAlerts` over the decoded answer; `contains` is `strings.Contains`.
  pub any_firing : String → List AmAlert → Bool
  any_firing filter [] = false
  any_firing filter (al ∷ alerts) =
      let rest = any_firing filter alerts in
      if not (str_eq al.state "active") && not (str_eq al.state "suppressed")
      then rest
      else if any_label filter al.labels
      then true
      else rest

  -- `HasFiringAlerts`: a failed request, or an answer that does not decode, is an error.
  pub has_firing_alerts : String → Result String (List AmAlert) → Result String Bool
  has_firing_alerts filter (ok alerts) = ok (any_firing filter alerts)
  has_firing_alerts filter (err e) = err e
