-- ===== src/Budget/Evaluate/Windows.antt =====
-- `Evaluate` as a whole: its guards, and which windows the two ETAs come from.
use slo_sentinel.Prelude.{
  ℕ, ◌≡◌, refl, sym, ap, ◌∙◌, subst, ◌⊎◌, inl, inr, Bool, true, false, Option, none, List, [], ◌∷◌,
  arith, str_eq, Bool-cases, ok, >>=-eq-ok,
}
use slo_sentinel.Prelude.Int.{ℤ, pos, ltb_ℤ}
use slo_sentinel.Prelude.Float.{Float}
use slo_sentinel.Budget.Types.{hour, WindowEval, Forecast, Input, State}
use slo_sentinel.Budget.Engine.{nought, validate, ceiling_jumped}
use slo_sentinel.Budget.Evaluate.{
  get_window, eval_window, is_zero_thresholds, eval_windows, eta_of, longest_eta, horizons_of,
  decide, forecast_of, forecast, evaluate, check_input, would_warn, would_crit,
}
use slo_sentinel.Budget.Evaluate.Tables.{
  In, AllUpTo, IsLongest, Computed, Table, eval_windows-Windows,
}

module _ ⦃fl : Float⦄ where
  open fl use {F, at_most, over, minus}

  longest_eta-eq :
      (w : ℤ) (ws : List ℤ) (pw : List (ℤ × WindowEval F)) (l : ℤ) (e : Option F)
      → AllUpTo w ws
      → ((ltb_ℤ l w ≡ true) × In w ws) ⊎ ((l ≡ w) × (e ≡ eta_of (get_window w pw)))
      → longest_eta ws pw l e ≡ eta_of (get_window w pw)
  unfolding longest_eta
  longest_eta-eq w [] pw l e a (inl (_, i)) = absurd i
  longest_eta-eq w [] pw l e a (inr (_, h)) = h
  longest_eta-eq w (v ∷ ws) pw l e (up, a) (inl (lt, inl same)) =
      rw (same, lt) (longest_eta-eq w ws pw w _ a (inr (refl, refl)))
  longest_eta-eq w (v ∷ ws) pw l e (up, a) (inl (lt, inr i)) = elim (Bool-cases (ltb_ℤ l v)) [
    | inl longer ↦ elim (Bool-cases (ltb_ℤ v w)) [
      | inl shorter ↦ rw longer (longest_eta-eq w ws pw v _ a (inl (shorter, i)))
      | inr reached ↦
          let same : v ≡ w = ground arith in
          rw longer
            (longest_eta-eq w ws pw v _ a (inr (same, ap (λ u. eta_of (get_window u pw)) same)))
    ]
    | inr other ↦ rw other (longest_eta-eq w ws pw l e a (inl (lt, i)))
  ]
  longest_eta-eq w (v ∷ ws) pw l e (up, a) (inr (same, h)) =
      let no_longer : ltb_ℤ l v ≡ false = rw same (ground arith) in
      rw no_longer (longest_eta-eq w ws pw l e a (inr (same, h)))

  abbrev Etas : Input F → Forecast F → Type 0
  Etas inp f =
      let ws = horizons_of inp.def.horizons in
      let moved = ceiling_jumped inp.prev_ceiling inp.ceiling in
      ((w : ℤ)
        → IsLongest w ws
        → (ev : WindowEval F) × (eval_window w inp moved ≡ ok ev) × (f.eta_conservative ≡ ev.eta))
      × (In hour ws
          → (ev : WindowEval F) × (eval_window hour inp moved ≡ ok ev)
            × (f.eta_aggressive ≡ ev.eta))
      × (¬ In hour ws → f.eta_aggressive ≡ none)

  no_windows : (inp : Input F) (moved : Bool) → Computed inp moved []
  unfolding get_window
  no_windows inp moved v ev h = cc

  decide_ignores_state :
      (f : Forecast F) (inp : Input F) (s : State) (n : ℕ)
      → decide (record f { state = s; exit_streak = n }) inp ≡ decide f inp
  unfolding decide would_warn would_crit
  decide_ignores_state f inp s n = refl

  abbrev Decided : Input F → Forecast F → Type 0
  Decided inp f =
      (decide f inp ≡ (f.state, f.exit_streak))
      × (f.headroom ≡ minus inp.ceiling inp.value)
      × (f.utilization ≡ over inp.value inp.ceiling)

  forecast_of-Decided : (inp : Input F) (r : Table) → Decided inp (forecast_of inp r)
  unfolding forecast_of
  forecast_of-Decided inp (pw, a) = (decide_ignores_state _ inp _ _, refl, refl)

  forecast-eq-ok : (inp : Input F) (f : Forecast F) → forecast inp ≡ ok f → Decided inp f
  unfolding forecast
  forecast-eq-ok inp f h =
      let ws = horizons_of inp.def.horizons in
      let moved = ceiling_jumped inp.prev_ceiling inp.ceiling in
      let (out, _, made) = >>=-eq-ok (eval_windows ws inp moved ([], none)) _ h in
      let same : forecast_of inp out ≡ f = cc in
      subst (Decided inp) same (forecast_of-Decided inp out)

  forecast-Etas : (inp : Input F) (f : Forecast F) → forecast inp ≡ ok f → Etas inp f
  unfolding forecast forecast_of
  forecast-Etas inp f h =
      let ws = horizons_of inp.def.horizons in
      let moved = ceiling_jumped inp.prev_ceiling inp.ceiling in
      let (out, e, made) = >>=-eq-ok (eval_windows ws inp moved ([], none)) _ h in
      let (c, has, agg) =
        eval_windows-Windows ws inp moved ([], none) out (no_windows inp moved) e in
      let same : forecast_of inp out ≡ f = cc in
      let conservative : f.eta_conservative ≡ longest_eta ws out.0 (pos 0) none =
        ap (λ (g : Forecast F). g.eta_conservative) (sym same) in
      let aggressive : f.eta_aggressive ≡ out.1 =
        ap (λ (g : Forecast F). g.eta_aggressive) (sym same) in
      (
        λ w l.
            let (ev, found) = has w (inl l.1) in
            (
              ev,
              c w ev found,
              conservative
                  ∙ longest_eta-eq w ws out.0 (pos 0) none l.2 (inl (l.0, l.1))
                  ∙ ap eta_of found,
            ),
        λ i. let (ev, done, eta) = agg.0 i in (ev, done, aggressive ∙ eta),
        λ n. aggressive ∙ agg.1 n,
      )

  -- If `Evaluate` returns a forecast, its conservative ETA is that of the longest window, if a
  -- positive window is the longest.
  pub evaluate-conservative :
      (inp : Input F) (f : Forecast F) (w : ℤ)
      → evaluate inp ≡ ok f
      → IsLongest w (horizons_of inp.def.horizons)
      → (ev : WindowEval F) × (eval_window w inp (ceiling_jumped inp.prev_ceiling inp.ceiling)
          ≡ ok ev)
        × (f.eta_conservative ≡ ev.eta)
  unfolding evaluate
  evaluate-conservative inp f w h longest =
      let (_, _, made) = >>=-eq-ok (check_input inp) (λ _. forecast inp) h in
      (forecast-Etas inp f made).0 w longest

  -- If `Evaluate` returns a forecast and 1h is among its windows, its aggressive ETA is that of the
  -- 1h window.
  pub evaluate-aggressive :
      (inp : Input F) (f : Forecast F)
      → evaluate inp ≡ ok f
      → In hour (horizons_of inp.def.horizons)
      → (ev : WindowEval F) × (eval_window hour inp (ceiling_jumped inp.prev_ceiling inp.ceiling)
          ≡ ok ev)
        × (f.eta_aggressive ≡ ev.eta)
  unfolding evaluate
  evaluate-aggressive inp f h short =
      let (_, _, made) = >>=-eq-ok (check_input inp) (λ _. forecast inp) h in
      (forecast-Etas inp f made).1 short

  -- Where 1h is not among the windows, a forecast that `Evaluate` returns has no aggressive ETA,
  -- also when other windows show growth.
  pub evaluate-no_aggressive :
      (inp : Input F) (f : Forecast F)
      → evaluate inp ≡ ok f
      → ¬ In hour (horizons_of inp.def.horizons)
      → f.eta_aggressive ≡ none
  unfolding evaluate
  evaluate-no_aggressive inp f h long =
      let (_, _, made) = >>=-eq-ok (check_input inp) (λ _. forecast inp) h in
      (forecast-Etas inp f made).2 long

  check_input-eq-ok :
      (inp : Input F) {u : Unit {0}}
      → check_input inp ≡ ok u
      → ((is_zero_thresholds inp.th ≡ true) ⊎ (validate inp.th ≡ ok tt))
        × (str_eq inp.def.id "" ≡ false)
        × (at_most inp.ceiling nought ≡ false)
  unfolding check_input
  check_input-eq-ok inp h = ground arith

  -- A forecast is returned only for thresholds that are all zero (then the defaults hold) or that
  -- pass `validate`, an id that is not empty and a ceiling that is not `<= 0`. Its state and streak
  -- are those that `decide` gives for it, its headroom is the ceiling less the value and its
  -- utilization the value over the ceiling.
  pub evaluate-eq-ok :
      (inp : Input F) (f : Forecast F)
      → evaluate inp ≡ ok f
      → ((is_zero_thresholds inp.th ≡ true) ⊎ (validate inp.th ≡ ok tt))
        × (str_eq inp.def.id "" ≡ false)
        × (at_most inp.ceiling nought ≡ false)
        × (decide f inp ≡ (f.state, f.exit_streak))
        × (f.headroom ≡ minus inp.ceiling inp.value)
        × (f.utilization ≡ over inp.value inp.ceiling)
  unfolding evaluate
  evaluate-eq-ok inp f h =
      let (_, checked, made) = >>=-eq-ok (check_input inp) (λ _. forecast inp) h in
      let (t, i, c) = check_input-eq-ok inp checked in
      let (d, hr, u) = forecast-eq-ok inp f made in (t, i, c, d, hr, u)
