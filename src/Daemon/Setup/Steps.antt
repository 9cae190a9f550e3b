-- ===== src/Daemon/Setup/Steps.antt =====
-- The number of points of an SLO's range query.
use slo_sentinel.Prelude.{
  ℕ, ◌*◌, ◌/◌, ◌≤◌, ◌<◌, ◌≡◌, refl, sym, ap, ◌∙◌, subst, inl, inr, false, arith, ltb, if◌then◌else◌,
  ltb→lt, Bool-cases,
}
use native.Mathlib.Nat.{zero-mul, mul-zero, add-zero}
use slo_sentinel.Prelude.Int.{pos, ltb_ℤ, ◌*ℤ◌, ◌/ℤ◌}
use slo_sentinel.Budget.Types.{second, minute}
use slo_sentinel.Daemon.Setup.{slo_step}

-- The step in ℕ.
abbrev pub step_of : ℕ → ℕ
step_of w =
    let s = w / 10000 / 1000000000 * 1000000000 in if ltb s 60000000000 then 60000000000 else s

over-pos : (a b : ℕ) → pos a /ℤ pos b ≡ pos (a / b)
unfolding ◌/ℤ◌
over-pos a b = rw (zero-mul b, mul-zero a, add-zero a, add-zero b) refl

times-pos : (a b : ℕ) → pos a *ℤ pos b ≡ pos (a * b)
unfolding ◌*ℤ◌
times-pos a b = ground arith

whole_seconds-pos :
    (w : ℕ) → pos w /ℤ pos 10000 /ℤ second *ℤ second ≡ pos (w / 10000 / 1000000000 * 1000000000)
whole_seconds-pos w =
    ap (λ t. t /ℤ second *ℤ second) (over-pos w 10000)
    ∙ ap (λ t. t *ℤ second) (over-pos (w / 10000) 1000000000)
    ∙ times-pos (w / 10000 / 1000000000) 1000000000

at_least_minute :
    (s : ℕ)
    → (if ltb_ℤ (pos s) minute then minute else pos s)
      ≡ pos (if ltb s 60000000000 then 60000000000 else s)
at_least_minute s = ground arith

slo_step-pos : (w : ℕ) → slo_step (pos w) ≡ pos (step_of w)
unfolding slo_step
slo_step-pos w =
    ap (λ step. if ltb_ℤ step minute then minute else step) (whole_seconds-pos w)
    ∙ at_least_minute (w / 10000 / 1000000000 * 1000000000)

not_below : (a b : ℕ) → ltb a b ≡ false → b ≤ a
not_below a b h = ground arith

step_of-bounds : (w : ℕ) → (60000000000 ≤ step_of w) × (w < 11000 * step_of w)
step_of-bounds w = elim (Bool-cases (ltb (w / 10000 / 1000000000 * 1000000000) 60000000000)) [
  | inl e ↦ rw e (omega arith, omega (arith, ltb→lt, e))
  | inr e ↦ rw e (omega (arith, not_below, e), omega (arith, not_below, e))
]

-- For any window that is not negative, the step of an SLO's range query is at least a minute, and
-- the window has fewer than 11,000 steps, the most points that Prometheus gives for a series.
pub slo_step-bounds :
    (w step : ℕ) → slo_step (pos w) ≡ pos step → (60000000000 ≤ step) × (w < 11000 * step)
slo_step-bounds w step h =
    let same : pos (step_of w) ≡ pos step = sym (slo_step-pos w) ∙ h in
    let s : step_of w ≡ step = cc in
    subst (λ n. (60000000000 ≤ n) × (w < 11000 * n)) s (step_of-bounds w)
