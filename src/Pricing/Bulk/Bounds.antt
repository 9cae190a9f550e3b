-- ===== src/Pricing/Bulk/Bounds.antt =====
-- How much of an offer file is kept, and what is read of it.
use slo_sentinel.Prelude.{
  ℕ, zero, suc, ◌≤◌, ◌<◌, String, ◌≡◌, subst, inl, inr, Bool, true, Option, none, some, List, [],
  ◌∷◌, arith, str_eq, Bool-cases, length, length-append, ok, >>=-eq-ok,
}
use slo_sentinel.Prelude.Dict.{Dict}
use slo_sentinel.Prelude.Float.{Float}
use slo_sentinel.Pricing.Rates.{Rate, OdTerm}
use slo_sentinel.Pricing.Bulk.{
  ProductMatcher, Terms, Section, products_section, terms_section, other_section, with_rate, Found,
  rate_in_terms, scan_on_demand, scan_terms, scan_section, scan_sections, some_rates, at_least_one,
  find_on_demand_rates,
}

module _ ⦃fl : Float⦄ where
  open fl use {F}

  with_rate-length :
      (rates : List (Rate F)) (r : Option (Rate F))
      → length (with_rate rates r) ≤ suc (length rates)
  with_rate-length rates none = omega arith
  with_rate-length rates (some r) = omega (arith, length-append rates (r ∷ []))

  scan_on_demand-length :
      (most : ℕ) (matched : Dict Bool) (skus : List (String × Dict OdTerm)) (rates : List (Rate F))
      → 0 < most
      → length rates ≤ most
      → length (scan_on_demand most matched skus rates) ≤ most
  unfolding scan_on_demand
  scan_on_demand-length most matched [] rates p h = h
  scan_on_demand-length most matched ((sku, terms) ∷ skus) rates p h =
      scan_on_demand-length most matched skus _ p
        (ground (arith, with_rate-length rates (rate_in_terms sku terms), h, p))

  abbrev pub OnlyOnDemand : Terms → Type 0
  OnlyOnDemand [] = Unit {0}
  OnlyOnDemand ((kind, skus) ∷ kinds) = (str_eq kind "OnDemand" ≡ true) × OnlyOnDemand kinds

  abbrev pub SectionsOnDemand : List Section → Type 0
  SectionsOnDemand [] = Unit {0}
  SectionsOnDemand (products_section ps ∷ ss) = SectionsOnDemand ss
  SectionsOnDemand (terms_section ts ∷ ss) = OnlyOnDemand ts × SectionsOnDemand ss
  SectionsOnDemand (other_section ∷ ss) = SectionsOnDemand ss

  scan_terms-eq-ok :
      (most : ℕ) (matched : Dict Bool) (kinds : Terms) (rates found : List (Rate F))
      → scan_terms most matched kinds rates ≡ ok found
      → 0 < most
      → length rates ≤ most
      → (length found ≤ most) × OnlyOnDemand kinds
  unfolding scan_terms
  scan_terms-eq-ok most matched [] rates found h p k =
      let same : rates ≡ found = cc in (subst (λ rs. length rs ≤ most) same k, tt)
  scan_terms-eq-ok most matched ((kind, skus) ∷ kinds) rates found h p k =
      elim (Bool-cases (str_eq kind "OnDemand")) [
        | inr e ↦ ground (arith, e, h)
        | inl e ↦
            (let (bound, only) =
                scan_terms-eq-ok most matched kinds (scan_on_demand most matched skus rates) found
                  (ground (arith, e, h)) p (scan_on_demand-length most matched skus rates p k) in
              (bound, (e, only)))
      ]

  scan_sections-eq-ok :
      (match_sku : ProductMatcher) (most : ℕ) (file : List Section) (before found : Found)
      → scan_sections match_sku most file before ≡ ok found
      → 0 < most
      → length before.1 ≤ most
      → (length found.1 ≤ most) × SectionsOnDemand file
  unfolding scan_sections scan_section
  scan_sections-eq-ok match_sku most [] before found h p k =
      let same : before ≡ found = cc in (subst (λ (f : Found). length f.1 ≤ most) same k, tt)
  scan_sections-eq-ok match_sku most (products_section ps ∷ ss) (m, rates) found h p k =
      scan_sections-eq-ok match_sku most ss _ found h p k
  scan_sections-eq-ok match_sku most (other_section ∷ ss) before found h p k =
      scan_sections-eq-ok match_sku most ss before found h p k
  scan_sections-eq-ok match_sku most (terms_section ts ∷ ss) (m, rates) found h p k =
      let (mid, e, h') =
        >>=-eq-ok (scan_section match_sku most (terms_section ts) (m, rates)) _ h in
      let (rs, e', q) = >>=-eq-ok (scan_terms most m ts []) (λ f. ok (m, f)) e in
      let (bound, only) = scan_terms-eq-ok most m ts [] rs e' p (omega arith) in
      let same : (m, rs) ≡ mid = cc in
      let (last, others) =
        scan_sections-eq-ok match_sku most ss mid found h' p
          (subst (λ (f : Found). length f.1 ≤ most) same bound) in
      (last, (only, others))

  some_rates-eq-ok :
      (rates found : List (Rate F))
      → some_rates rates ≡ ok found
      → (rates ≡ found) × (0 < length found)
  some_rates-eq-ok [] found h = cc
  some_rates-eq-ok (r ∷ rs) found h =
      let same : r ∷ rs ≡ found = cc in
      (same, subst (λ (f : List (Rate F)). 0 < length f) same (omega arith))

  at_least_one-pos : (n : ℕ) → 0 < at_least_one n
  at_least_one-pos zero = omega arith
  at_least_one-pos (suc n) = omega arith

  -- If rates are found, there is at least one and there are at most `MaxResults` of them (one, where
  -- that is 0), however long the offer file; and the file has terms of the kind `OnDemand` only.
  pub find_on_demand_rates-eq-ok :
      (file : List Section) (match_sku : ProductMatcher) (max_results : ℕ) (rates : List (Rate F))
      → find_on_demand_rates file match_sku max_results ≡ ok rates
      → (0 < length rates) × (length rates ≤ at_least_one max_results) × SectionsOnDemand file
  unfolding find_on_demand_rates
  find_on_demand_rates-eq-ok file match_sku max_results rates h =
      let (found, e, q) =
        >>=-eq-ok (scan_sections match_sku (at_least_one max_results) file ([], [])) _ h in
      let (bound, only) =
        scan_sections-eq-ok match_sku (at_least_one max_results) file ([], []) found e
          (at_least_one-pos max_results) (omega arith) in
      let (same, positive) = some_rates-eq-ok found.1 rates q in
      (
        positive,
        subst (λ (f : List (Rate F)). length f ≤ at_least_one max_results) same bound,
        only,
      )
