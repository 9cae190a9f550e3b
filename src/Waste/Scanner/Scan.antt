-- ===== src/Waste/Scanner/Scan.antt =====
-- The scan as a choice of rules, each on its own.
use slo_sentinel.Prelude.{
  ◌≡◌, refl, sym, ap, ◌∙◌, subst, ◌≢◌, ◌⊎◌, inl, inr, Bool, true, false, ◌&&◌, not, List, [], ◌∷◌,
  ◌++◌, map, arith, str_eq, if◌then◌else◌, Bool-cases, eq_iff, Result, ok, err, String,
}
use mathlib.Core.List.{append_assoc, append-nil}
use slo_sentinel.Prelude.Int.{ℤ, pos, ltb_ℤ, ◌-ℤ◌}
use slo_sentinel.Prelude.Float.{Float}
use slo_sentinel.Query.{Sample, Series, Source}
use slo_sentinel.Catalog.Types.{waste, Rule, Catalog, rules_of_kind}
use slo_sentinel.Waste.Scanner.{
  Found, Pricer, Decoders, apply_pricing, window_of, all_true, first_samples, held, candidate_of,
  answer_to, scan_rule, scan_loop, scan,
}

module _ ⦃fl : Float⦄ where
  open fl use {F, less, decimal}

  module _ (src : Source F) (p : Pricer F) (dec : Decoders F) (now : ℤ) where
    abbrev pub is_idle : Rule → Bool
    is_idle r = not (str_eq r.alert "") && held (first_samples (answer_to src p dec now r))

    abbrev pub idle_rules : List Rule → List Rule
    idle_rules [] = []
    idle_rules (r ∷ rs) = let rest = idle_rules rs in if is_idle r then r ∷ rest else rest

    abbrev pub candidate : Rule → Found F
    candidate r = apply_pricing p dec r (candidate_of r)

    scan_rule_idle :
        (r : Rule) (out : List (Found F))
        → is_idle r ≡ true
        → scan_rule src p dec now r out ≡ out ++ candidate r ∷ []
    unfolding scan_rule
    scan_rule_idle r out e = ground (arith, e)

    scan_rule_busy :
        (r : Rule) (out : List (Found F)) → is_idle r ≡ false → scan_rule src p dec now r out ≡ out
    unfolding scan_rule
    scan_rule_busy r out e = ground (arith, e)

    idle_rules_idle :
        (r : Rule) (rs : List Rule) → is_idle r ≡ true → idle_rules (r ∷ rs) ≡ r ∷ idle_rules rs
    idle_rules_idle r rs e = ap (λ b. if b then r ∷ idle_rules rs else idle_rules rs) e

    idle_rules_busy :
        (r : Rule) (rs : List Rule) → is_idle r ≡ false → idle_rules (r ∷ rs) ≡ idle_rules rs
    idle_rules_busy r rs e = ap (λ b. if b then r ∷ idle_rules rs else idle_rules rs) e

    scan_loop_lem :
        (rs : List Rule) (out : List (Found F))
        → scan_loop src p dec now rs out ≡ out ++ map candidate (idle_rules rs)
    unfolding scan_loop scan_rule
    scan_loop_lem [] out = sym (append-nil out)
    scan_loop_lem (r ∷ rs) out = elim (Bool-cases (is_idle r)) [
      | inl e ↦
          scan_loop_lem rs (scan_rule src p dec now r out)
          ∙ ap (λ xs. xs ++ map candidate (idle_rules rs)) (scan_rule_idle r out e)
          ∙ append_assoc out (candidate r ∷ []) (map candidate (idle_rules rs))
          ∙ ap (λ (rs' : List Rule). out ++ map candidate rs') (sym (idle_rules_idle r rs e))
      | inr e ↦
          scan_loop_lem rs (scan_rule src p dec now r out)
          ∙ ap (λ xs. xs ++ map candidate (idle_rules rs)) (scan_rule_busy r out e)
          ∙ ap (λ (rs' : List Rule). out ++ map candidate rs') (sym (idle_rules_busy r rs e))
    ]

    scan-map :
        (cat : Catalog)
        → scan src p dec now cat ≡ map candidate (idle_rules (rules_of_kind waste cat))
    unfolding scan
    scan-map cat = scan_loop_lem (rules_of_kind waste cat) []

    -- The condition holds at a sample that is not below 0.5.
    abbrev pub AllOn : List (Sample F) → Type 0
    AllOn [] = Unit {0}
    AllOn (s ∷ ss) = (less s.value (decimal 5 1) ≡ false) × AllOn ss

    -- The window is what the rule says, or 14 days.
    abbrev pub IsWindow : Rule → ℤ → Type 0
    IsWindow r w =
        ((ltb_ℤ (pos 0) r.for_time ≡ true) × (w ≡ r.for_time))
        ⊎ ((ltb_ℤ (pos 0) r.for_time ≡ false) × (w ≡ pos 1209600000000000))

    -- The answer has a first series, which has samples, and the condition holds at each of them.
    abbrev pub IsOn : Result String (List (Series F)) → Type 0
    IsOn answer =
        (first : Series F) × (rest : List (Series F)) × (answer ≡ ok (first ∷ rest))
        × (first.samples ≢ [])
        × AllOn first.samples

    -- The rule is an alert, and its condition has held over its whole window, asked by the day.
    abbrev pub IsIdle : Rule → Type 0
    IsIdle r =
        (r.alert ≢ "")
        × (w : ℤ) × IsWindow r w
        × IsOn (src.range_query r.expr (now -ℤ w) now (pos 86400000000000))

    all_true-AllOn : (ss : List (Sample F)) → all_true ss ≡ true → AllOn ss
    unfolding all_true
    all_true-AllOn [] h = tt
    all_true-AllOn (s ∷ ss) h = elim (Bool-cases (less s.value (decimal 5 1))) [
      | inl below ↦ cc (below, h)
      | inr on ↦ (on, all_true-AllOn ss (ground (arith, on, h)))
    ]

    AllOn-all_true : (ss : List (Sample F)) → AllOn ss → all_true ss ≡ true
    unfolding all_true
    AllOn-all_true [] a = refl
    AllOn-all_true (s ∷ ss) (on, a) = rw on (AllOn-all_true ss a)

    held_some : (ss : List (Sample F)) → held ss ≡ true → (ss ≢ []) × AllOn ss
    held_some [] h = cc
    held_some (s ∷ ss) h = (λ e. cc, all_true-AllOn (s ∷ ss) h)

    some_held : (ss : List (Sample F)) → ss ≢ [] → AllOn ss → held ss ≡ true
    some_held [] some_there a = absurd (some_there refl)
    some_held (s ∷ ss) some_there a = AllOn-all_true (s ∷ ss) a

    held-IsOn :
        (answer : Result String (List (Series F)))
        → held (first_samples answer) ≡ true
        → IsOn answer
    held-IsOn (err e) h = cc
    held-IsOn (ok []) h = cc
    held-IsOn (ok (first ∷ rest)) h =
        let (some_there, a) = held_some first.samples h in (first, rest, refl, some_there, a)

    IsOn-held :
        (answer : Result String (List (Series F)))
        → IsOn answer
        → held (first_samples answer) ≡ true
    IsOn-held answer (first, rest, e, some_there, a) =
        subst (λ x. held (first_samples x) ≡ true) (sym e) (some_held first.samples some_there a)

    window_of-IsWindow : (r : Rule) → IsWindow r (window_of r)
    window_of-IsWindow r = elim (Bool-cases (ltb_ℤ (pos 0) r.for_time)) [
      | inl e ↦ inl (e, ap (λ b. if b then r.for_time else pos 1209600000000000) e)
      | inr e ↦ inr (e, ap (λ b. if b then r.for_time else pos 1209600000000000) e)
    ]

    IsWindow-window_of : (r : Rule) (w : ℤ) → IsWindow r w → w ≡ window_of r
    IsWindow-window_of r w (inl (e, is)) =
        is ∙ sym (ap (λ b. if b then r.for_time else pos 1209600000000000) e)
    IsWindow-window_of r w (inr (e, is)) =
        is ∙ sym (ap (λ b. if b then r.for_time else pos 1209600000000000) e)

    is_idle-IsIdle : (r : Rule) → is_idle r ≡ true → IsIdle r
    is_idle-IsIdle r h =
        let named : str_eq r.alert "" ≡ false = ground (arith, h) in
        let on : held (first_samples (answer_to src p dec now r)) ≡ true = ground (arith, h) in
        (
          λ same. cc ((eq_iff r.alert "").1 same, named),
          window_of r,
          window_of-IsWindow r,
          held-IsOn (answer_to src p dec now r) on,
        )

    IsIdle-is_idle : (r : Rule) → IsIdle r → is_idle r ≡ true
    IsIdle-is_idle r (named, w, is, on) =
        let held_over = λ (x : ℤ).
          held (first_samples (src.range_query r.expr (now -ℤ x) now (pos 86400000000000))) in
        let on' : held_over (window_of r) ≡ true =
          subst (λ x. held_over x ≡ true) (IsWindow-window_of r w is) (IsOn-held _ on) in
        elim (Bool-cases (str_eq r.alert "")) [
          | inl same ↦ absurd (named ((eq_iff r.alert "").0 same))
          | inr differ ↦ ground (arith, differ, on')
        ]

    -- What a scan of the rules finds: a candidate for each that is idle, in their order.
    pub data Scanned : List Rule → List (Found F) → Type 0 where
      no_rule : Scanned [] []
      not_idle :
          {r : Rule} {rs : List Rule} {cs : List (Found F)}
          → ¬ IsIdle r
          → Scanned rs cs
          → Scanned (r ∷ rs) cs
      idle :
          {r : Rule} {rs : List Rule} {cs : List (Found F)}
          → IsIdle r
          → Scanned rs cs
          → Scanned (r ∷ rs) (apply_pricing p dec r (candidate_of r) ∷ cs)

    map-Scanned : (rs : List Rule) → Scanned rs (map candidate (idle_rules rs))
    map-Scanned [] = no_rule
    map-Scanned (r ∷ rs) = elim (Bool-cases (is_idle r)) [
      | inl e ↦
          subst (λ (rs' : List Rule). Scanned (r ∷ rs) (map candidate rs'))
            (sym (idle_rules_idle r rs e)) (idle (is_idle-IsIdle r e) (map-Scanned rs))
      | inr e ↦
          subst (λ (rs' : List Rule). Scanned (r ∷ rs) (map candidate rs'))
            (sym (idle_rules_busy r rs e))
            (not_idle (λ i. cc (IsIdle-is_idle r i, e)) (map-Scanned rs))
    ]

    -- The scan gives a candidate, priced on its own, for exactly the alert rules of the kind waste
    -- whose query over the rule's window (14 days where it has none) gives a first series with
    -- samples of which none is below 0.5, in the order of the catalog: a rule whose query fails or
    -- that has no price takes nothing from the others.
    pub scan-Scanned : (cat : Catalog) → Scanned (rules_of_kind waste cat) (scan src p dec now cat)
    scan-Scanned cat =
        subst (Scanned (rules_of_kind waste cat)) (sym (scan-map cat))
          (map-Scanned (rules_of_kind waste cat))
