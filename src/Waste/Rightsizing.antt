-- ===== src/Waste/Rightsizing.antt =====
-- internal/waste/rightsizing.go: when a resource is too large, and what a smaller one would save.
use slo_sentinel.Prelude.{Bool, if◌then◌else◌}
use slo_sentinel.Prelude.Float.{Float}

module _ ⦃fl : Float⦄ where
  open fl use {F, minus, times, over, less, at_most, decimal, ceil}

  pub low_util : F → F → Bool
  low_util p95_ratio threshold = less p95_ratio threshold

  pub suggested_saving : F → F → F
  suggested_saving price_current price_suggested =
      let saving = times (minus price_current price_suggested) (decimal 730 0) in
      if less saving (decimal 0 0) then decimal 0 0 else saving

  pub round_up_to : F → F → F
  round_up_to usage step =
      if at_most step (decimal 0 0) then usage else times (ceil (over usage step)) step
