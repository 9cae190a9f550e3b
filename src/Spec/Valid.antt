-- ===== src/Spec/Valid.antt =====
-- SLO definitions that were loaded are valid.
use slo_sentinel.Prelude.{◌≡◌, true, false, Option, none, some, str_eq, ok}
use slo_sentinel.Prelude.Int.{pos, ltb_ℤ}
use slo_sentinel.Prelude.Float.{Float}
use slo_sentinel.Budget.Engine.{nought, validate}
use slo_sentinel.Capacity.Defs.{Overlay, resolve}
use slo_sentinel.Spec.{Slo}

module _ ⦃fl : Float⦄ where
  open fl use {F, at_most, decimal}

  abbrev pub OverlayIsValid : Option (Overlay F) → Type 0
  OverlayIsValid none = Unit {0}
  OverlayIsValid (some o) = validate (resolve (some o)) ≡ ok tt

  pub record IsValid (s : Slo F) : Type 0 where
    pub named : str_eq s.id "" ≡ false
    pub queried : str_eq s.sli_query "" ≡ false
    pub above_zero : at_most s.objective nought ≡ false
    pub below_hundred : at_most (decimal 100 0) s.objective ≡ false
    pub windowed : ltb_ℤ (pos 0) s.window_days ≡ true
    pub thresholds_valid : OverlayIsValid s.thresholds
