-- ===== src/Cost/Estimate/Totals.antt =====
-- The report of an estimate in terms of the lines that have a price.
use slo_sentinel.Prelude.{
  ◌<◌, String, ◌≡◌, refl, sym, ap, ◌∙◌, subst, inl, inr, Bool, false, ◌||◌, List, [], ◌∷◌, ◌++◌,
  arith, eq_iff, length, Result, ok, err, Result-cases,
}
use mathlib.Core.List.{append_assoc, append-nil}
use slo_sentinel.Prelude.Float.{Float}
use slo_sentinel.Budget.Engine.{nought}
use slo_sentinel.Pricing.Types.{Attrs, Quote}
use slo_sentinel.Cost.Estimate.{
  UsageLine, EstimatedLine, EstimateResult, row, failed_row, priced_row, merge_currency, add_line,
  estimate_loop, empty_result, estimate_spend,
}

module _ ⦃fl : Float⦄ where
  open fl use {F, plus, times}

  module _ (price : String → Attrs → Result String (Quote F)) where
    abbrev pub quote_at : UsageLine F → Result String (Quote F)
    quote_at ln = price ln.template.family ln.template.attrs

    abbrev pub rows : List (UsageLine F) → List (EstimatedLine F)
    rows [] = []
    rows (ln ∷ lns) = row ln (quote_at ln) ∷ rows lns

    abbrev pub priced_line : UsageLine F → Result String (Quote F) → List (UsageLine F × Quote F)
    priced_line ln (ok q) = (ln, q) ∷ []
    priced_line ln (err e) = []

    -- The lines that the pricer has a quote for, with it.
    abbrev pub priced : List (UsageLine F) → List (UsageLine F × Quote F)
    priced [] = []
    priced (ln ∷ lns) = priced_line ln (quote_at ln) ++ priced lns

  abbrev pub sum_costs : F → List (UsageLine F × Quote F) → F
  sum_costs total [] = total
  sum_costs total ((ln, q) ∷ ps) = sum_costs (plus total (times ln.quantity q.unit_price)) ps

  abbrev pub any_stale : List (UsageLine F × Quote F) → Bool
  any_stale [] = false
  any_stale ((ln, q) ∷ ps) = q.stale || any_stale ps

  abbrev pub merged : String → List (UsageLine F × Quote F) → String
  merged c [] = c
  merged c ((ln, q) ∷ ps) = merged (merge_currency c q.currency) ps

  -- The currencies of the priced lines are all `c`.
  abbrev pub AllIn : String → List (UsageLine F × Quote F) → Type 0
  AllIn c [] = Unit {0}
  AllIn c ((ln, q) ∷ ps) = (q.currency ≡ c) × AllIn c ps

  abbrev pub Report :
      (String → Attrs → Result String (Quote F))
      → List (UsageLine F)
      → EstimateResult F
      → EstimateResult F
      → Type 0
  Report price lns before after =
      (after.lines ≡ before.lines ++ rows price lns)
      × (after.total ≡ sum_costs before.total (priced price lns))
      × (after.stale ≡ (before.stale || any_stale (priced price lns)))
      × (after.currency ≡ merged before.currency (priced price lns))

  after_line :
      (price : String → Attrs → Result String (Quote F)) (ln : UsageLine F)
      (lns : List (UsageLine F)) (r : Result String (Quote F)) (res : EstimateResult F)
      → quote_at price ln ≡ r
      → estimate_loop price lns (add_line ln r res) ≡ estimate_loop price (ln ∷ lns) res
  unfolding estimate_loop
  after_line price ln lns r res e = ap (λ x. estimate_loop price lns (add_line ln x res)) (sym e)

  loop-Report :
      (price : String → Attrs → Result String (Quote F)) (lns : List (UsageLine F))
      (res : EstimateResult F)
      → Report price lns res (estimate_loop price lns res)
  unfolding estimate_loop
  loop-Report price [] res = (sym (append-nil _), refl, ground arith, refl)
  loop-Report price (ln ∷ lns) res = elim (Result-cases (quote_at price ln)) [
    | inl (q, e) ↦
        let (ls, total, stale, currency) = loop-Report price lns (add_line ln (ok q) res) in
        subst (λ x. Report price (ln ∷ lns) res x) (after_line price ln lns (ok q) res e)
          (rw e (
            ls ∙ append_assoc res.lines (priced_row ln q ∷ []) (rows price lns),
            total,
            ground (arith, stale),
            currency,
          ))
    | inr (x, e) ↦
        let (ls, total, stale, currency) = loop-Report price lns (add_line ln (err x) res) in
        subst (λ y. Report price (ln ∷ lns) res y) (after_line price ln lns (err x) res e)
          (rw e (
            ls ∙ append_assoc res.lines (failed_row ln x ∷ []) (rows price lns),
            total,
            stale,
            currency,
          ))
  ]

  -- The report has one row for each line, in their order, with the pricer's words where it failed.
  -- Its total is the sum of quantity times unit price over the lines that have a quote, and it is
  -- stale exactly if one of those quotes is: a line without a price changes neither.
  pub estimate_spend_lem :
      (price : String → Attrs → Result String (Quote F)) (lns : List (UsageLine F))
      → ((estimate_spend price lns).lines ≡ rows price lns)
        × ((estimate_spend price lns).total ≡ sum_costs nought (priced price lns))
        × ((estimate_spend price lns).stale ≡ any_stale (priced price lns))
  unfolding estimate_spend
  estimate_spend_lem price lns =
      let (ls, total, stale, currency) = loop-Report price lns empty_result in (ls, total, stale)

  merge_currency_same : (c : String) → merge_currency c c ≡ c
  merge_currency_same c = ground (arith, eq_iff c c)

  merged_same : (c : String) (ps : List (UsageLine F × Quote F)) → AllIn c ps → merged c ps ≡ c
  merged_same c [] a = refl
  merged_same c ((ln, q) ∷ ps) a =
      ap (λ d. merged d ps) (ap (merge_currency c) a.0 ∙ merge_currency_same c)
      ∙ merged_same c ps a.1

  first_currency :
      (c : String) (ps : List (UsageLine F × Quote F))
      → AllIn c ps
      → 0 < length ps
      → merged "" ps ≡ c
  first_currency c [] a h = ground arith
  first_currency c ((ln, q) ∷ ps) a h = ap (λ d. merged d ps) a.0 ∙ merged_same c ps a.1

  -- If some line has a quote and all quotes are in one currency, that is the currency of the report.
  pub estimate_spend-currency :
      (price : String → Attrs → Result String (Quote F)) (lns : List (UsageLine F)) (c : String)
      → AllIn c (priced price lns)
      → 0 < length (priced price lns)
      → (estimate_spend price lns).currency ≡ c
  unfolding estimate_spend
  estimate_spend-currency price lns c a h =
      let (ls, total, stale, currency) = loop-Report price lns empty_result in
      currency ∙ first_currency c (priced price lns) a h
