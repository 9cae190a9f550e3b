-- ===== src/Capacity/Sensor/Polls.antt =====
-- What holds of a sensor over any number of polls.
use slo_sentinel.Prelude.{
  ℕ, ◌≡◌, refl, sym, ap, ◌∙◌, subst, ◌⊎◌, List, [], ◌∷◌, arith, Result, ok, err, >>=-eq-ok,
}
use slo_sentinel.Prelude.Int.{ℤ}
use slo_sentinel.Prelude.Float.{Float}
use slo_sentinel.Query.{Sample, Source}
use slo_sentinel.Budget.Types.{State, healthy, warning, critical, Forecast, Input}
use slo_sentinel.Budget.Evaluate.{effective, evaluate, decide}
use slo_sentinel.Budget.Evaluate.Decide.{IsCrit, IsWarn, IsWatch, decide-IsWatch, decide_hysteresis}
use slo_sentinel.Budget.Evaluate.Windows.{evaluate-eq-ok}
use slo_sentinel.Capacity.Defs.{Def, resolve, horizon_durations}
use slo_sentinel.Capacity.Sensor.{
  Sensor, PollError, value_query, ceiling_query, rejected, with_error, instant, query_windows,
  new_sensor, input_of, measure, keep_forecast, poll,
}

with_error-eq-ok {ℓ} :
    {E E' : Type 0} {A : Type ℓ} (f : E → E') (r : Result E A) {a : A}
    → with_error f r ≡ ok a
    → r ≡ ok a
with_error-eq-ok f (ok a) h = cc
with_error-eq-ok f (err e) h = cc

module _ ⦃fl : Float⦄ where
  open fl use {F}

  -- The forecast is that of some answers of the source, for the sensor's state.
  abbrev Measured : Sensor F → Forecast F → Type 0
  Measured s f =
      (now : ℤ) × (value : F) × (ceiling : F) × (windows : List (ℤ × List (Sample F))) × (evaluate
          (input_of s now value ceiling windows)
        ≡ ok f)

  measure-Measured :
      (s : Sensor F) (src : Source F) (now : ℤ) (f : Forecast F)
      → measure s src now ≡ ok f
      → Measured s f
  unfolding measure
  measure-Measured s src now f h =
      let (value, _, h1) =
        >>=-eq-ok (with_error value_query (instant src s.def.metric_value now)) _ h in
      let (ceiling, _, h2) =
        >>=-eq-ok (with_error ceiling_query (instant src s.def.metric_ceiling now)) _ h1 in
      let (windows, _, h3) =
        >>=-eq-ok (query_windows src s.def.metric_value now s.step (horizon_durations s.def)) _
          h2 in
      (now, value, ceiling, windows, with_error-eq-ok rejected _ h3)

  abbrev pub SensorIsWatch : Sensor F → Type 0
  SensorIsWatch s = IsWatch s.prev_state s.streak

  Measured-IsWatch :
      (s : Sensor F) (f : Forecast F)
      → SensorIsWatch s
      → Measured s f
      → IsWatch f.state f.exit_streak
  unfolding input_of
  Measured-IsWatch s f w (now, value, ceiling, windows, e) =
      let inp = input_of s now value ceiling windows in
      let (_, _, _, d, _, _) = evaluate-eq-ok inp f e in
      subst (λ (r : State × ℕ). IsWatch r.0 r.1) d (decide-IsWatch f inp w)

  keep_forecast-IsWatch :
      (s : Sensor F) (r : Result PollError (Forecast F))
      → SensorIsWatch s
      → ((f : Forecast F) → r ≡ ok f → IsWatch f.state f.exit_streak)
      → SensorIsWatch (keep_forecast s r).1
  keep_forecast-IsWatch s (err e) w k = w
  keep_forecast-IsWatch s (ok f) w k = k f refl

  poll-IsWatch :
      (s : Sensor F) (src : Source F) (now : ℤ) → SensorIsWatch s → SensorIsWatch (poll s src now).1
  unfolding poll
  poll-IsWatch s src now w =
      keep_forecast-IsWatch s (measure s src now) w
        (λ f e. Measured-IsWatch s f w (measure-Measured s src now f e))

  -- Any number of polls, each with what the source answers then.
  pub poll_all : Sensor F → List (Source F × ℤ) → Sensor F
  poll_all s [] = s
  poll_all s ((src, now) ∷ rest) = poll_all (poll s src now).1 rest

  poll_all-keeps :
      (s : Sensor F) (history : List (Source F × ℤ))
      → SensorIsWatch s
      → SensorIsWatch (poll_all s history)
  unfolding poll_all
  poll_all-keeps s [] w = w
  poll_all-keeps s ((src, now) ∷ rest) w =
      poll_all-keeps (poll s src now).1 rest (poll-IsWatch s src now w)

  new_sensor-IsWatch : (def : Def F) (s : Sensor F) → new_sensor def ≡ ok s → SensorIsWatch s
  unfolding new_sensor
  new_sensor-IsWatch def s h = ground arith

  -- Whatever the source answers and fails, after any number of polls a sensor from `New` has a
  -- state that is set, and while that is an alarm it has counted fewer than two calm polls.
  pub poll_all-IsWatch :
      (def : Def F) (s : Sensor F) (history : List (Source F × ℤ))
      → new_sensor def ≡ ok s
      → SensorIsWatch (poll_all s history)
  poll_all-IsWatch def s history h = poll_all-keeps s history (new_sensor-IsWatch def s h)

  -- No alarm by the sensor's own thresholds.
  abbrev pub CalmFor : Sensor F → Forecast F → Type 0
  CalmFor s f = let th = effective (resolve s.def.thresholds) in ¬ IsCrit f th × ¬ IsWarn f th

  abbrev Kept : Sensor F → Forecast F → Sensor F → Type 0
  Kept s f t =
      Measured s f × (t.def ≡ s.def) × (t.prev_state ≡ f.state) × (t.streak ≡ f.exit_streak)

  keep_forecast-Kept :
      (s t : Sensor F) (f : Forecast F) (r : Result PollError (Forecast F))
      → keep_forecast s r ≡ (ok f, t)
      → (r ≡ ok f) × (t.def ≡ s.def) × (t.prev_state ≡ f.state) × (t.streak ≡ f.exit_streak)
  keep_forecast-Kept s t f (err e) h = ground arith
  keep_forecast-Kept s t f (ok g) h = ground arith

  poll-Kept :
      (s t : Sensor F) (src : Source F) (now : ℤ) (f : Forecast F)
      → poll s src now ≡ (ok f, t)
      → Kept s f t
  unfolding poll
  poll-Kept s t src now f h =
      let (m, d, p, k) = keep_forecast-Kept s t f (measure s src now) h in
      (measure-Measured s src now f m, d, p, k)

  Measured-decide :
      (s : Sensor F) (f : Forecast F)
      → Measured s f
      → (inp : Input F) × (inp.prev_state ≡ s.prev_state)
        × (inp.prev_exit_streak ≡ s.streak)
        × (inp.th ≡ resolve s.def.thresholds)
        × (decide f inp ≡ (f.state, f.exit_streak))
  unfolding input_of
  Measured-decide s f (now, value, ceiling, windows, e) =
      let inp = input_of s now value ceiling windows in
      let (_, _, _, d, _, _) = evaluate-eq-ok inp f e in (inp, refl, refl, refl, d)

  -- A sensor that has just raised an alarm needs two calm polls in a row to be healthy again: with
  -- the streak at 0, the first forecast that is calm by the sensor's thresholds still reports the
  -- alarm, and the one of the next poll, if calm too, reports healthy.
  pub poll_recovery :
      (s t u : Sensor F) (src src' : Source F) (now now' : ℤ) (f f' : Forecast F)
      → (s.prev_state ≡ warning) ⊎ (s.prev_state ≡ critical)
      → s.streak ≡ 0
      → poll s src now ≡ (ok f, t)
      → CalmFor s f
      → poll t src' now' ≡ (ok f', u)
      → CalmFor s f'
      → (f.state ≡ s.prev_state) × (f'.state ≡ healthy)
  poll_recovery s t u src src' now now' f f' alarm streak h calm h' calm' =
      let (m, d, p, k) = poll-Kept s t src now f h in
      let (m', _, _, _) = poll-Kept t u src' now' f' h' in
      let (inp, e1, e2, e3, e4) = Measured-decide s f m in
      let (inp', g1, g2, g3, g4) = Measured-decide t f' m' in
      let th : inp.th ≡ resolve s.def.thresholds = e3 in
      let th' : inp'.th ≡ resolve s.def.thresholds =
        g3 ∙ ap (λ (x : Def F). resolve x.thresholds) d in
      let calm_at : IsCrit f (effective inp.th) → ⊥ =
        subst (λ x. ¬ IsCrit f (effective x)) (sym th) calm.0 in
      let quiet_at : IsWarn f (effective inp.th) → ⊥ =
        subst (λ x. ¬ IsWarn f (effective x)) (sym th) calm.1 in
      let calm_at' : IsCrit f' (effective inp'.th) → ⊥ =
        subst (λ x. ¬ IsCrit f' (effective x)) (sym th') calm'.0 in
      let quiet_at' : IsWarn f' (effective inp'.th) → ⊥ =
        subst (λ x. ¬ IsWarn f' (effective x)) (sym th') calm'.1 in
      let carry : ◌≡◌ {A = State × ℕ} (inp'.prev_state, inp'.prev_exit_streak) (decide f inp) =
        ground (arith, e4, g1, g2, p, k) in
      let (first, then_healthy) =
        decide_hysteresis s.prev_state f f' inp inp' alarm e1 (e2 ∙ streak) (calm_at, quiet_at)
          carry (calm_at', quiet_at') in
      (ground (arith, e4, first), ground (arith, g4, then_healthy))
