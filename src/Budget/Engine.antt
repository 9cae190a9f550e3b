-- ===== src/Budget/Engine.antt =====
-- internal/budget/engine.go: thresholds, slopes, down-sampling, gaps and the ceiling test.
pub mod Runs
use slo_sentinel.Prelude.{
  ℕ, zero, suc, ◌+◌, ◌-◌, ◌/◌, ◌%◌, Bool, true, false, ◌||◌, not, none, some, List, [], ◌∷◌, ◌++◌,
  ltb, leb, ◌==◌, if◌then◌else◌, length, get_elem?, get_or, Result, ok, err, ◌>>=◌,
}
use slo_sentinel.Prelude.Int.{ℤ, pos, negsuc, ltb_ℤ, ◌-ℤ◌, ◌*ℤ◌, ◌/ℤ◌}
use slo_sentinel.Prelude.Float.{Float}
use slo_sentinel.Query.{Sample}
use slo_sentinel.Budget.Types.{
  Thresholds, Error, soft_not_below_crit, warn_not_above_crit, index_out_of_range, second,
}

module _ ⦃fl : Float⦄ where
  open fl use {
    F, plus, minus, times, over, less, at_most, same, decimal, of_int, to_int, abs, round,
  }
  open fl use {sort}

  abbrev pub nought : F
  nought = decimal 0 0

  unfoldable pub validate : Thresholds F → Result Error (Unit {0})
  validate t =
      if not (less t.soft_ratio t.crit_ratio)
      then err soft_not_below_crit
      else if not (ltb_ℤ t.crit_eta t.warn_eta)
      then err warn_not_above_crit
      else ok tt

  -- `Duration.Seconds`: whole seconds, and the rest as a fraction.
  pub seconds : ℤ → F
  seconds d =
      let whole = d /ℤ second in
      plus (of_int whole) (over (of_int (d -ℤ whole *ℤ second)) (of_int second))

  -- `samples[n]`, a panic out of range.
  abbrev pub at_index : List (Sample F) → ℤ → Result Error (Sample F)
  at_index xs (pos n) = elim (get_elem? xs n) [ none ↦ err index_out_of_range | some s ↦ ok s ]
  at_index xs (negsuc n) = err index_out_of_range

  -- The loop of `decimate`, `todo` rounds before its end at round `i`.
  pub decimate_loop : List (Sample F) → F → ℕ → ℕ → Result Error (List (Sample F))
  decimate_loop samples step i zero = ok []
  decimate_loop samples step i (suc todo) =
      at_index samples (to_int (round (times (of_int (pos i)) step))) >>= λ s.
      decimate_loop samples step (i + 1) todo >>= λ rest. ok (s ∷ rest)

  pub decimate : List (Sample F) → ℕ → Result Error (List (Sample F))
  decimate samples max =
      let step = over (of_int (pos (length samples) -ℤ pos 1)) (of_int (pos max -ℤ pos 1)) in
      if leb (length samples) max then ok samples else decimate_loop samples step 0 max

  -- The inner loop of `TheilSenSlope`: the slopes from `p` to each later point.
  pub slopes_from : Sample F → List (Sample F) → List F
  slopes_from p [] = []
  slopes_from p (q ∷ qs) =
      let dt = seconds (q.time -ℤ p.time) in
      let rest = slopes_from p qs in
      if at_most dt nought then rest else over (minus q.value p.value) dt ∷ rest

  pub pair_slopes : List (Sample F) → List F
  pair_slopes [] = []
  pair_slopes (p ∷ ps) = slopes_from p ps ++ pair_slopes ps

  -- The median of a list that is not empty.
  pub median : List F → F
  median slopes =
      let sorted = sort slopes in
      let n = length slopes in
      if (n % 2) == 1
      then get_or sorted (n / 2) nought
      else over (plus (get_or sorted (n / 2 - 1) nought) (get_or sorted (n / 2) nought))
          (decimal 2 0)

  abbrev pub slope_of : List F → F × Bool
  slope_of [] = (nought, false)
  slope_of (s ∷ ss) = (median (s ∷ ss), true)

  pub theil_sen_slope : List (Sample F) → ℕ → Result Error (F × Bool)
  theil_sen_slope samples max_points = decimate samples max_points >>= λ pts.
      if ltb (length pts) 2 then ok (nought, false) else ok (slope_of (pair_slopes pts))

  abbrev pub Sums : Type 0
  Sums = record { st : F; sy : F; sty : F; stt : F }

  pub ols_sums : ℤ → List (Sample F) → Sums → Sums
  ols_sums start [] acc = acc
  ols_sums start (s ∷ ss) acc =
      let t = seconds (s.time -ℤ start) in
      ols_sums start ss (record {
        st = plus acc.st t;
        sy = plus acc.sy s.value;
        sty = plus acc.sty (times t s.value);
        stt = plus acc.stt (times t t);
      })

  ols_of : F → Sums → F × Bool
  ols_of n s =
      let den = minus (times n s.stt) (times s.st s.st) in
      if same den nought
      then (nought, false)
      else (over (minus (times n s.sty) (times s.st s.sy)) den, true)

  pub ols_slope : List (Sample F) → F × Bool
  ols_slope [] = (nought, false)
  ols_slope (s ∷ []) = (nought, false)
  ols_slope (s ∷ s' ∷ ss) =
      let samples = s ∷ s' ∷ ss in
      ols_of (of_int (pos (length samples)))
        (ols_sums s.time samples (record { st = nought; sy = nought; sty = nought; stt = nought }))

  -- The loop of `SplitByGaps`: the runs that are closed, and the run that is open with its last
  -- sample.
  pub split_loop :
      ℤ
      → List (List (Sample F))
      → List (Sample F)
      → Sample F
      → List (Sample F)
      → List (List (Sample F))
  split_loop max_gap runs cur last [] = runs ++ (cur ++ last ∷ []) ∷ []
  split_loop max_gap runs cur last (s ∷ ss) =
      let cut = ltb_ℤ max_gap (s.time -ℤ last.time) in
      split_loop max_gap (if cut then runs ++ (cur ++ last ∷ []) ∷ [] else runs)
        (if cut then [] else cur ++ last ∷ []) s ss

  pub split_by_gaps : List (Sample F) → ℤ → List (List (Sample F))
  split_by_gaps [] max_gap = []
  split_by_gaps (s ∷ ss) max_gap = split_loop max_gap [] [] s ss

  unfoldable pub min_samples : ℤ → ℤ → ℤ
  min_samples window interval =
      if not (ltb_ℤ (pos 0) interval)
      then pos 0
      else to_int (round (over (of_int window) (of_int interval))) *ℤ pos 83 /ℤ pos 100

  unfoldable pub ceiling_jumped : F → F → Bool
  ceiling_jumped prev_ceiling new_ceiling =
      if at_most prev_ceiling nought || at_most new_ceiling nought
      then false
      else less (decimal 1 2) (over (abs (minus new_ceiling prev_ceiling)) prev_ceiling)
