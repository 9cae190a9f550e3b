-- ===== src/Pricing/Rates.antt =====
-- internal/pricing/aws_bulk.go and aws_query.go: the rate of a product.
use slo_sentinel.Prelude.{String, Option, none, some, List, [], ◌∷◌, if◌then◌else◌}
use slo_sentinel.Prelude.Dict.{Dict, lookup}
use slo_sentinel.Prelude.Float.{Float}
use slo_sentinel.Prelude.Text.{codes, text_less}
use slo_sentinel.Promdur.{trim_space}
use mathlib.Core.List.{reverse}

pub record Rate (F : Type 0) : Type 0 where
  pub sku : String
  pub unit : String
  pub currency : String
  pub price_per_unit : F

pub record Dimension : Type 0 where
  pub unit : String
  pub description : String
  pub price_per_unit : Dict String

pub record OdTerm : Type 0 where
  pub offer_term_code : String
  pub price_dimensions : Dict Dimension

pub record QueryProduct : Type 0 where
  pub sku : String
  pub product_family : String
  pub attributes : Dict String
  pub on_demand : Dict OdTerm

-- The inner loop of `sortStrings`: `s[j]` goes down past those that it is less than. The slice is
-- read from its end.
unfoldable pub sink_text : String → List String → List String
sink_text x [] = x ∷ []
sink_text x (y ∷ ys) = if text_less (codes x) (codes y) then y ∷ sink_text x ys else x ∷ y ∷ ys

unfoldable pub sort_texts_loop : List String → List String → List String
sort_texts_loop sorted [] = sorted
sort_texts_loop sorted (x ∷ xs) = sort_texts_loop (sink_text x sorted) xs

-- `sortStrings`, and `sort.Strings`.
unfoldable pub sort_strings : List String → List String
sort_strings xs = reverse (sort_texts_loop [] xs)

abbrev pub keys {ℓ} : {V : Type ℓ} → Dict V → List String
keys [] = []
keys ((k, v) ∷ m) = k ∷ keys m

module _ ⦃fl : Float⦄ where
  open fl use {F, at_most, decimal, parse_float}

  -- `parsePrice`.
  unfoldable pub parse_price : String → Option F
  parse_price s = parse_float (trim_space (codes s))

  -- A price that counts: one that is a number and not `<= 0`.
  abbrev pub positive : Option F → Option F
  positive none = none
  positive (some v) = if at_most v (decimal 0 0) then none else some v

  abbrev pub rate_or : String → String → String → Option F → Option (Rate F) → Option (Rate F)
  rate_or sku unit cur none rest = rest
  rate_or sku unit cur (some v) rest =
      some (record { sku = sku; unit = unit; currency = cur; price_per_unit = v })

  -- The prices of one dimension, in the order in which the map is read.
  unfoldable pub rate_of_prices : String → String → Dict String → Option (Rate F)
  rate_of_prices sku unit [] = none
  rate_of_prices sku unit ((cur, text) ∷ prices) =
      rate_or sku unit cur (positive (parse_price text)) (rate_of_prices sku unit prices)

  abbrev pub rate_of_dimension : String → Option Dimension → Option (Rate F)
  rate_of_dimension sku none = none
  rate_of_dimension sku (some dim) = rate_of_prices sku dim.unit dim.price_per_unit

  abbrev pub or_else {ℓ} : {A : Type ℓ} → Option A → Option A → Option A
  or_else none rest = rest
  or_else (some a) rest = some a

  unfoldable pub first_rate_of : String → Dict Dimension → List String → Option (Rate F)
  first_rate_of sku dims [] = none
  first_rate_of sku dims (k ∷ ks) =
      or_else (rate_of_dimension sku (lookup k dims)) (first_rate_of sku dims ks)

  -- `firstRate`: the dimensions in the order of their ids.
  unfoldable pub first_rate : String → OdTerm → Option (Rate F)
  first_rate sku t = first_rate_of sku t.price_dimensions (sort_strings (keys t.price_dimensions))

  -- `rateOf`: the loop returns in its first round, whatever term the map gives first.
  pub rate_of_terms : String → Dict OdTerm → Option (Rate F)
  rate_of_terms sku [] = none
  rate_of_terms sku ((id, t) ∷ terms) = first_rate sku t

  pub rate_of : QueryProduct → Option (Rate F)
  rate_of p = rate_of_terms p.sku p.on_demand
