-- ===== src/Budget/Evaluate.antt =====
-- internal/budget/evaluate.go: one forecast from the samples of every window.
pub mod Decide
pub mod Sorting
pub mod Tables
pub mod Windows
use slo_sentinel.Prelude.{
  ℕ, ◌+◌, ◌-◌, ◌/◌, Bool, true, false, ◌&&◌, ◌||◌, not, Option, none, some, List, [], ◌∷◌, arith,
  str_eq, leb, if◌then◌else◌, length, get_or, Result, ok, ◌>>=◌, ◌>>◌, fail_if,
}
use slo_sentinel.Prelude.Int.{ℤ, pos, ltb_ℤ}
use slo_sentinel.Prelude.Float.{Float}
use slo_sentinel.Query.{Sample}
use slo_sentinel.Budget.Types.{
  State, unset, healthy, warning, critical, state_eq, second, hour, default_exit_polls,
  default_horizons, Error, empty_id, ceiling_not_positive, Thresholds, default_thresholds,
  no_reason, jumped, no_slope, too_few_samples, WindowEval, Forecast, Input,
}
use slo_sentinel.Budget.Engine.{
  nought, validate, theil_sen_slope, ols_slope, split_by_gaps, min_samples, ceiling_jumped,
}

-- `PerWindow[w] = ev`, and the reads `PerWindow[w]`.
unfoldable pub same_window : ℤ → ℤ → Bool
same_window a b = not (ltb_ℤ a b) && not (ltb_ℤ b a)

abbrev pub horizons_of : List ℤ → List ℤ
horizons_of [] = default_horizons
horizons_of (w ∷ ws) = w ∷ ws

module _ ⦃fl : Float⦄ where
  open fl use {F, plus, minus, times, over, less, at_most, same, decimal, of_int, to_int}

  unfoldable pub set_window : ℤ → WindowEval F → List (ℤ × WindowEval F) → List (ℤ × WindowEval F)
  set_window w ev [] = (w, ev) ∷ []
  set_window w ev ((v, old) ∷ m) =
      if same_window v w then (w, ev) ∷ m else (v, old) ∷ set_window w ev m

  unfoldable pub get_window : ℤ → List (ℤ × WindowEval F) → Option (WindowEval F)
  get_window w [] = none
  get_window w ((v, ev) ∷ m) = if same_window v w then some ev else get_window w m

  -- `sortSlice`. One round of the inner loop moves `x` down past each larger element; the sorted
  -- part is held from its end.
  pub sink : F → List F → List F
  sink x [] = x ∷ []
  sink x (y ∷ ys) = if less x y then y ∷ sink x ys else x ∷ y ∷ ys

  pub sort_loop : List F → List F → List F
  sort_loop sorted [] = sorted
  sort_loop sorted (x ∷ xs) = sort_loop (sink x sorted) xs

  -- The elements from the end of the sorted slice to its beginning.
  pub sort_slice_down : List F → List F
  sort_slice_down xs = sort_loop [] xs

  -- `s[n]` in the sorted slice of length `len`.
  pub sorted_at : List F → ℕ → F
  sorted_at xs n = get_or (sort_slice_down xs) (length xs - 1 - n) nought

  unfoldable pub f_headroom : Input F → F
  f_headroom inp = minus inp.ceiling inp.value

  abbrev pub run_slope : Bool → List (Sample F) → Result Error (F × Bool)
  run_slope true run = ok (ols_slope run)
  run_slope false run = theil_sen_slope run 100

  -- The slopes of the runs that have one, in order, and the number of samples in all runs.
  pub run_slopes : Bool → List (List (Sample F)) → Result Error (List F × ℕ)
  run_slopes use_ols [] = ok ([], 0)
  run_slopes use_ols (run ∷ runs) = run_slope use_ols run >>= λ s.
      run_slopes use_ols runs >>= λ r. ok (if s.1 then s.0 ∷ r.0 else r.0, length run + r.1)

  abbrev pub blank_window : ℤ → WindowEval F
  blank_window w = record {
    window = w;
    slope = none;
    samples = 0;
    eta = none;
    valid = false;
    reason = no_reason;
  }

  -- `evalWindow` from the slopes on.
  pub window_of_slopes : ℤ → Input F → List F × ℕ → WindowEval F
  window_of_slopes w inp ([], total) = record (blank_window w) { reason = no_slope }
  window_of_slopes w inp (s ∷ ss, total) =
      let beta = sorted_at (s ∷ ss) (length (s ∷ ss) / 2) in
      let ev = record (blank_window w) { samples = total; slope = some beta; valid = true } in
      if at_most beta (decimal 1 12)
      then ev
      else record ev { eta = some (over (f_headroom inp) beta) }

  unfoldable pub eval_window : ℤ → Input F → Bool → Result Error (WindowEval F)
  eval_window w inp moved =
      let samples = inp.samples w in
      let min_n = min_samples w inp.interval in
      if ltb_ℤ (pos (length samples)) min_n
      then ok (record (blank_window w) { reason = too_few_samples (length samples) min_n })
      else if moved
      then ok (record (blank_window w) { reason = jumped })
      else (run_slopes inp.use_ols (split_by_gaps samples (pos 300000000000)) >>= λ r.
          ok (window_of_slopes w inp r))

  -- `th == (Thresholds{})`.
  unfoldable pub is_zero_thresholds : Thresholds F → Bool
  is_zero_thresholds th =
      same_window th.warn_eta (pos 0)
      && same_window th.crit_eta (pos 0)
      && same th.soft_ratio nought
      && same th.crit_ratio nought

  unfoldable pub effective : Thresholds F → Thresholds F
  effective th = if is_zero_thresholds th then default_thresholds else th

  -- `eta != nil && time.Duration(*eta * float64(time.Second)) < limit`.
  unfoldable pub eta_below : Option F → ℤ → Bool
  eta_below none limit = false
  eta_below (some eta) limit = ltb_ℤ (to_int (times eta (of_int second))) limit

  unfoldable pub would_warn : Forecast F → Thresholds F → Bool
  would_warn f th =
      (eta_below f.eta_aggressive th.warn_eta && at_most th.soft_ratio f.utilization)
      || eta_below f.eta_conservative th.warn_eta

  unfoldable pub would_crit : Forecast F → Thresholds F → Bool
  would_crit f th = eta_below f.eta_aggressive th.crit_eta || at_most th.crit_ratio f.utilization

  -- The default branch of the switch in `decide`: the way back to healthy, with its delay.
  abbrev pub release : State → ℕ → State × ℕ
  release prev streak =
      if leb default_exit_polls streak || state_eq prev healthy
      then (healthy, streak)
      else if state_eq prev unset
      then (healthy, streak)
      else (prev, streak)

  unfoldable pub decide : Forecast F → Input F → State × ℕ
  decide f inp =
      let th = effective inp.th in
      if would_crit f th
      then (critical, 0)
      else if would_warn f th
      then (warning, 0)
      else release inp.prev_state (inp.prev_exit_streak + 1)

  -- The first loop of `Evaluate`: every window, and the aggressive ETA of the 1h window.
  unfoldable pub eval_windows :
      List ℤ
      → Input F
      → Bool
      → List (ℤ × WindowEval F) × Option F
      → Result Error (List (ℤ × WindowEval F) × Option F)
  eval_windows [] inp moved acc = ok acc
  eval_windows (w ∷ ws) inp moved (per_window, aggressive) = eval_window w inp moved >>= λ ev.
      eval_windows ws inp moved
        (set_window w ev per_window, (if same_window w hour then ev.eta else aggressive))

  abbrev pub eta_of : Option (WindowEval F) → Option F
  eta_of none = none
  eta_of (some ev) = ev.eta

  -- The second loop: the conservative ETA is that of the longest window.
  unfoldable pub longest_eta : List ℤ → List (ℤ × WindowEval F) → ℤ → Option F → Option F
  longest_eta [] per_window longest eta = eta
  longest_eta (w ∷ ws) per_window longest eta =
      let longer = ltb_ℤ longest w in
      longest_eta ws per_window (if longer then w else longest)
        (if longer then eta_of (get_window w per_window) else eta)

  -- The forecast that `Evaluate` builds from the windows and the aggressive ETA.
  unfoldable pub forecast_of : Input F → List (ℤ × WindowEval F) × Option F → Forecast F
  forecast_of inp (per_window, aggressive) =
      let f : Forecast F = record {
        id = inp.def.id;
        now = inp.now;
        value = inp.value;
        ceiling = inp.ceiling;
        headroom = minus inp.ceiling inp.value;
        utilization = over inp.value inp.ceiling;
        eta_aggressive = aggressive;
        eta_conservative = longest_eta (horizons_of inp.def.horizons) per_window (pos 0) none;
        per_window = per_window;
        state = unset;
        exit_streak = 0;
        ceiling_jumped = ceiling_jumped inp.prev_ceiling inp.ceiling;
      } in
      record f { state = (decide f inp).0; exit_streak = (decide f inp).1 }

  -- `Evaluate` past its guards.
  unfoldable pub forecast : Input F → Result Error (Forecast F)
  forecast inp =
      eval_windows (horizons_of inp.def.horizons) inp (ceiling_jumped inp.prev_ceiling inp.ceiling)
        ([], none)
      >>= λ r. ok (forecast_of inp r)

  -- The guards of `Evaluate`, in their order.
  unfoldable pub check_input : Input F → Result Error (Unit {0})
  check_input inp = do
    (if is_zero_thresholds inp.th then ok tt else validate inp.th)
    fail_if (str_eq inp.def.id "") empty_id
    fail_if (at_most inp.ceiling nought) ceiling_not_positive

  unfoldable pub evaluate : Input F → Result Error (Forecast F)
  evaluate inp = check_input inp >> forecast inp
