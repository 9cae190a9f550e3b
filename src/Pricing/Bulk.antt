-- ===== src/Pricing/Bulk.antt =====
-- internal/pricing/aws_bulk.go: the rates in an offer file. The file is what the JSON decoder makes of
-- it, section by section; a file that is not such JSON is left out.
pub mod Bounds
use slo_sentinel.Prelude.{
  ℕ, zero, suc, ◌+◌, String, Bool, true, false, ◌&&◌, ◌||◌, not, Option, none, some, List, [], ◌∷◌,
  ◌++◌, str_eq, ltb, leb, if◌then◌else◌, length, Result, ok, err, ◌>>=◌, ◌>>◌,
}
use slo_sentinel.Prelude.Dict.{Dict, lookup, update}
use slo_sentinel.Prelude.Float.{Float}
use slo_sentinel.Pricing.Types.{
  BulkError, bad_index, no_service, no_offer, bad_offer, no_rates, attr,
}
use slo_sentinel.Pricing.Rates.{Rate, OdTerm, first_rate, or_else}

pub record IndexOffer : Type 0 where
  pub offer_code : String
  pub current_region_index_url : String
  pub regions : Dict String

-- The file of a service in a region; its region index where the region is not listed.
abbrev pub offer_file : Option IndexOffer → String → Result BulkError String
offer_file none region = err no_service
offer_file (some off) region =
    if not (str_eq (attr region off.regions) "")
    then ok (attr region off.regions)
    else if not (str_eq off.current_region_index_url "")
    then ok off.current_region_index_url
    else err no_offer

-- `LocateOfferURL`; `none` is an index that does not decode.
pub locate_offer_url : Option (Dict IndexOffer) → String → String → Result BulkError String
locate_offer_url none service_code region = err bad_index
locate_offer_url (some offers) service_code region = offer_file (lookup service_code offers) region

pub record ProductEntry : Type 0 where
  pub sku : String
  pub product_family : String
  pub attributes : Dict String

abbrev pub ProductMatcher : Type 0
ProductMatcher = String → String → Dict String → Bool

-- The kinds of terms with the terms of each SKU, in the order of the file.
abbrev pub Terms : Type 0
Terms = List (String × List (String × Dict OdTerm))

pub data Section : Type 0 where
  products_section : List (String × ProductEntry) → Section
  terms_section : Terms → Section
  other_section : Section

abbrev pub sku_of : String → ProductEntry → String
sku_of key p = if str_eq p.sku "" then key else p.sku

-- `scanProducts`: `matched` is a Go map, whose length is the number of its keys.
unfoldable pub scan_products :
    ProductMatcher → ℕ → List (String × ProductEntry) → Dict Bool → Dict Bool
scan_products match_sku most [] matched = matched
scan_products match_sku most ((key, p) ∷ ps) matched =
    let sku = sku_of key p in
    scan_products match_sku most ps (
      if ltb (length matched) most && match_sku sku p.product_family p.attributes
      then update sku true matched
      else matched)

abbrev pub is_matched : String → Dict Bool → Bool
is_matched sku matched = elim (lookup sku matched) [ none ↦ false | some b ↦ b ]

module _ ⦃fl : Float⦄ where
  open fl use {F}

  -- The first term of a SKU that has a rate, in the order in which the map is read.
  unfoldable pub rate_in_terms : String → Dict OdTerm → Option (Rate F)
  rate_in_terms sku [] = none
  rate_in_terms sku ((id, t) ∷ terms) = or_else (first_rate sku t) (rate_in_terms sku terms)

  abbrev pub with_rate : List (Rate F) → Option (Rate F) → List (Rate F)
  with_rate rates none = rates
  with_rate rates (some r) = rates ++ r ∷ []

  -- The loop over the SKUs of `OnDemand`. That `have` is set says that there is a rate.
  unfoldable pub scan_on_demand :
      ℕ → Dict Bool → List (String × Dict OdTerm) → List (Rate F) → List (Rate F)
  scan_on_demand most matched [] rates = rates
  scan_on_demand most matched ((sku, terms) ∷ skus) rates = scan_on_demand most matched skus (
      if not (is_matched sku matched) || ltb 0 (length rates) && leb most (length rates)
      then rates
      else with_rate rates (rate_in_terms sku terms))

  -- `scanTerms`. The terms of another kind are to be skipped by decoding an empty struct, but their
  -- opening brace has been read before, where the decoder accepts no value: it is an error.
  unfoldable pub scan_terms :
      ℕ → Dict Bool → Terms → List (Rate F) → Result BulkError (List (Rate F))
  scan_terms most matched [] rates = ok rates
  scan_terms most matched ((kind, skus) ∷ kinds) rates =
      let rest = scan_terms most matched kinds (scan_on_demand most matched skus rates) in
      if not (str_eq kind "OnDemand") then err bad_offer else rest

  abbrev pub Found : Type 0
  Found = Dict Bool × List (Rate F)

  unfoldable pub scan_section : ProductMatcher → ℕ → Section → Found → Result BulkError Found
  scan_section match_sku most (products_section ps) (matched, rates) =
      ok (scan_products match_sku most ps matched, rates)
  scan_section match_sku most (terms_section ts) (matched, rates) =
      scan_terms most matched ts [] >>= λ found. ok (matched, found)
  scan_section match_sku most other_section found = ok found

  unfoldable pub scan_sections : ProductMatcher → ℕ → List Section → Found → Result BulkError Found
  scan_sections match_sku most [] found = ok found
  scan_sections match_sku most (s ∷ ss) found =
      scan_section match_sku most s found >>= scan_sections match_sku most ss

  abbrev pub some_rates : List (Rate F) → Result BulkError (List (Rate F))
  some_rates [] = err no_rates
  some_rates (r ∷ rs) = ok (r ∷ rs)

  abbrev pub at_least_one : ℕ → ℕ
  at_least_one zero = 1
  at_least_one (suc n) = suc n

  -- `FindOnDemandRates`; a `MaxResults` that is negative is 0 here.
  unfoldable pub find_on_demand_rates :
      List Section → ProductMatcher → ℕ → Result BulkError (List (Rate F))
  find_on_demand_rates file match_sku max_results =
      scan_sections match_sku (at_least_one max_results) file ([], []) >>= λ found.
      some_rates found.1
