-- ===== src/Budget/Evaluate/Decide.antt =====
-- `decide`: which alarm a forecast raises, and the delayed way back to healthy.
use slo_sentinel.Prelude.{
  ℕ, ◌+◌, ◌<◌, ◌≡◌, refl, ◌∙◌, ◌≢◌, ◌↔◌, ◌⊎◌, inl, inr, Bool, true, false, Option, none, some,
  arith, Bool-cases,
}
use slo_sentinel.Prelude.Int.{ℤ, ◌≤ℤ◌}
use slo_sentinel.Prelude.Float.{Float}
use slo_sentinel.Budget.Types.{
  State, unset, healthy, warning, critical, second, Thresholds, Forecast, Input,
}
use slo_sentinel.Budget.Evaluate.{effective, eta_below, would_warn, would_crit, release, decide}

module _ ⦃fl : Float⦄ where
  open fl use {F, times, of_int, to_int, at_most}

  -- The ETA is known and its whole nanoseconds are below the limit.
  abbrev pub EtaUnder : Option F → ℤ → Type 0
  EtaUnder none limit = ⊥
  EtaUnder (some eta) limit = ¬ (limit ≤ℤ to_int (times eta (of_int second)))

  abbrev pub IsCrit : Forecast F → Thresholds F → Type 0
  IsCrit f th = EtaUnder f.eta_aggressive th.crit_eta ⊎ (at_most th.crit_ratio f.utilization ≡ true)

  abbrev pub IsWarn : Forecast F → Thresholds F → Type 0
  IsWarn f th =
      (EtaUnder f.eta_aggressive th.warn_eta × (at_most th.soft_ratio f.utilization ≡ true))
      ⊎ EtaUnder f.eta_conservative th.warn_eta

  abbrev pub IsCalm : Forecast F → Input F → Type 0
  IsCalm f inp = ¬ IsCrit f (effective inp.th) × ¬ IsWarn f (effective inp.th)

  eta_below_iff : (eta : Option F) (limit : ℤ) → (eta_below eta limit ≡ true) ↔ EtaUnder eta limit
  unfolding eta_below
  eta_below_iff none limit = (λ h. cc, λ h. absurd h)
  eta_below_iff (some eta) limit = ground arith

  would_crit_iff : (f : Forecast F) (th : Thresholds F) → (would_crit f th ≡ true) ↔ IsCrit f th
  unfolding would_crit
  would_crit_iff f th = (
    λ h. elim (Bool-cases (eta_below f.eta_aggressive th.crit_eta)) [
      | inl e ↦ inl ((eta_below_iff _ _).0 e)
      | inr e ↦ inr (ground arith)
    ],
    λ h. elim h [
      | inl u ↦ ground (arith, (eta_below_iff f.eta_aggressive th.crit_eta).1 u)
      | inr a ↦ ground arith
    ],
  )

  would_warn_iff : (f : Forecast F) (th : Thresholds F) → (would_warn f th ≡ true) ↔ IsWarn f th
  unfolding would_warn
  would_warn_iff f th = (
    λ h. elim (Bool-cases (eta_below f.eta_conservative th.warn_eta)) [
      | inl e ↦ inr ((eta_below_iff _ _).0 e)
      | inr e ↦ inl ((eta_below_iff _ _).0 (ground arith), ground arith)
    ],
    λ h. elim h [
      | inl u ↦ ground (arith, (eta_below_iff f.eta_aggressive th.warn_eta).1 u.0)
      | inr a ↦ ground (arith, (eta_below_iff f.eta_conservative th.warn_eta).1 a)
    ],
  )

  false_of {ℓ} : {P : Type ℓ} (b : Bool) → ((b ≡ true) → P) → ¬ P → b ≡ false
  false_of true f n = absurd (n (f refl))
  false_of false f n = refl

  pub decide_calm :
      (f : Forecast F) (inp : Input F)
      → IsCalm f inp
      → decide f inp ≡ release inp.prev_state (inp.prev_exit_streak + 1)
  unfolding decide
  decide_calm f inp (c, w) = rw (
    false_of _ (would_crit_iff f (effective inp.th)).0 c,
    false_of _ (would_warn_iff f (effective inp.th)).0 w,
  )

  -- An alarm is left after two calm forecasts in a row and not after one: the first keeps the state
  -- and counts 1, the second, read with the state and count of the first, is healthy.
  pub decide_hysteresis :
      (s : State) (f f' : Forecast F) (inp inp' : Input F)
      → (s ≡ warning) ⊎ (s ≡ critical)
      → inp.prev_state ≡ s
      → inp.prev_exit_streak ≡ 0
      → IsCalm f inp
      → (inp'.prev_state, inp'.prev_exit_streak) ≡ decide f inp
      → IsCalm f' inp'
      → (decide f inp ≡ (s, 1)) × (decide f' inp' ≡ (healthy, 2))
  decide_hysteresis s f f' inp inp' alarm prev streak calm carry calm' =
      let first : decide f inp ≡ (s, 1) = decide_calm f inp calm ∙ ground arith in
      (first, decide_calm f' inp' calm' ∙ ground (arith, first))

  -- From a sensor that keeps no state ("" and 0, as the SLO sensors pass), the first calm forecast
  -- is healthy, whatever was raised before.
  pub decide_no_memory :
      (f : Forecast F) (inp : Input F)
      → inp.prev_state ≡ unset
      → IsCalm f inp
      → (decide f inp).0 ≡ healthy
  decide_no_memory f inp e calm = rw (decide_calm f inp calm) (ground arith)

  -- What a sensor carries: a state that is set, and a streak of fewer than two calm polls while the
  -- state is an alarm.
  abbrev pub IsWatch : State → ℕ → Type 0
  IsWatch s streak = (s ≢ unset) × ((s ≡ healthy) ⊎ (streak < 2))

  pub decide-IsWatch :
      (f : Forecast F) (inp : Input F)
      → IsWatch inp.prev_state inp.prev_exit_streak
      → IsWatch (decide f inp).0 (decide f inp).1
  unfolding decide
  decide-IsWatch f inp w = ground arith
