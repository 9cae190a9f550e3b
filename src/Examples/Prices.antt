-- ===== src/Examples/Prices.antt =====
-- Runs of internal/pricing, internal/cost and internal/waste's scan.
use slo_sentinel.Prelude.{
  ℕ, zero, suc, ◌-◌, ◌*◌, ◌/◌, ◌%◌, ◌^◌, ◌≤◌, ◌<◌, String, ◌≡◌, refl, subst, ◌≢◌, ◌↔◌, ◌⊎◌, inl,
  inr, Bool, true, false, ◌&&◌, ◌||◌, not, Option, none, some, List, [], ◌∷◌, ◌++◌, map, arith,
  str_eq, eq_iff, ltb, leb, ◌==◌, if◌then◌else◌, ltb→lt, lt→ltb, leb→le, ==_iff, Bool-cases,
  Option-cases, length, get_elem?, get_or, take, drop, replicate, length-append, Result, ok, err,
  ◌>>=◌, ◌>>◌, fail_if, >>=-eq-ok, Result-cases, fail_if-eq-ok,
}
use Prim.Native.Char.{code}
use slo_sentinel.Prelude.Int.{ℤ, pos}
use slo_sentinel.Prelude.Float.{fixed}
use slo_sentinel.Query.{Source}
use slo_sentinel.Catalog.Types.{waste, Rule, Catalog, rules_of_kind}
use slo_sentinel.Pricing.Types.{Attrs, Quote, no_credentials, index_out_of_range, out_of_fuel}
use slo_sentinel.Pricing.Rates.{QueryProduct}
use slo_sentinel.Pricing.Products.{Service, answered, get_products}
use slo_sentinel.Pricing.Products.Pages.{get_products_terminates}
use slo_sentinel.Pricing.Bulk.{
  Section, products_section, terms_section, other_section, at_least_one, find_on_demand_rates,
}
use slo_sentinel.Pricing.Bulk.Bounds.{SectionsOnDemand, find_on_demand_rates-eq-ok}
use slo_sentinel.Pricing.Skus.{sku_not_sent, pop_encode}
use slo_sentinel.Pricing.Skus.Encoding.{AreUnreserved, percent_decode, pop_encode_escaped}
use slo_sentinel.Pricing.Cache.{writes, FileCache}
use slo_sentinel.Pricing.Providers.{Providers, resolve}
use slo_sentinel.Pricing.Providers.Safe.{resolve-safe}
use slo_sentinel.Pricing.Catalog.Abstract.{Call}
use slo_sentinel.Cost.Days.{Date, days_in_month, days_in_month_lem}
use slo_sentinel.Cost.Estimate.{UsageLine, estimate_spend}
use slo_sentinel.Cost.Estimate.Totals.{rows, estimate_spend_lem}
use slo_sentinel.Waste.Scanner.{no_pricer, Decoders, scan}
use slo_sentinel.Waste.Scanner.Scan.{Scanned, scan-Scanned}

-- A hash that can be undone: each number as so many strokes and a stop.
abbrev strokes : ℕ → String → String
strokes zero s = String.◌∷◌ "." s
strokes (suc n) s = String.◌∷◌ "|" (strokes n s)

abbrev tally : List ℕ → String
tally [] = String.[]
tally (n ∷ ns) = strokes n (tally ns)

abbrev untally : String → ℕ → List ℕ
untally String.[] n = []
untally (String.◌∷◌ c s) n =
    let more = untally s (suc n) in
    let next = untally s 0 in if code c == 124 then more else n ∷ next

abbrev hourly : Quote ℤ
hourly = record {
  unit_price = pos 96000;
  currency = "USD";
  unit = "Hrs";
  source = "aws-query";
  stale = false;
}

-- A price that is found, served from the cache an hour later, and served as old two days later.
abbrev three_calls : List (Call ℤ)
three_calls =
    record { now = pos 0; later = pos 1; disk = writes; key = 1 ∷ []; resolved = ok hourly }
    ∷ record {
      now = pos 3600000000000;
      later = pos 3600000000001;
      disk = writes;
      key = 1 ∷ [];
      resolved = err no_credentials;
    }
    ∷ record {
      now = pos 172800000000000;
      later = pos 172800000000001;
      disk = writes;
      key = 1 ∷ [];
      resolved = err no_credentials;
    }
    ∷ []

abbrev empty_cache : FileCache (Quote ℤ)
empty_cache = record { dir = "cache"; files = [] }

abbrev a_product : QueryProduct
a_product = record {
  sku = "A";
  product_family = "Compute Instance";
  attributes = [];
  on_demand = [];
}

-- Two pages of one product each.
abbrev two_pages : Service
two_pages zero r =
    answered 200 (some (record { price_list = some a_product ∷ []; next_token = "more" }))
two_pages (suc n) r =
    answered 200 (some (record { price_list = some a_product ∷ []; next_token = "" }))

get_products_terminates_example : get_products two_pages "AmazonEC2" [] ≢ err out_of_fuel
get_products_terminates_example = get_products_terminates two_pages "AmazonEC2" []

-- An encoding that puts a sign in front, and its decoding.
abbrev after_first : List ℕ → List ℕ
after_first [] = []
after_first (c ∷ s) = s

pop_encode_escaped_example :
    (percent_decode (pop_encode (b'a' ∷ b':' ∷ [])) ≡ b'a' ∷ b':' ∷ [])
    × ((after_first (b'=' ∷ pop_encode (b'a' ∷ b':' ∷ [])) ≡ b'a' ∷ b':' ∷ [])
        ↔ AreUnreserved (b'a' ∷ b':' ∷ []))
pop_encode_escaped_example =
    pop_encode_escaped (◌∷◌ b'=') after_first (λ t. refl) (b'a' ∷ b':' ∷ [])
      (omega arith, (omega arith, tt))

abbrev no_providers : Providers ℤ
no_providers = record {
  query_api = two_pages;
  index_file = none;
  offer_at = λ u. none;
  sku_list = λ f s r. sku_not_sent;
}

resolve-safe_example :
    resolve ⦃fl = fixed⦄ none no_providers "ec2" (("instance_type", "m5.large") ∷ [])
    ≢ err index_out_of_range
resolve-safe_example =
    resolve-safe ⦃fl = fixed⦄ none no_providers "ec2" (("instance_type", "m5.large") ∷ [])

abbrev january_31 : Date
january_31 = record { year = 2026; month = 1; day = 31 }

days_in_month_lem_example : days_in_month january_31 ≡ 59
days_in_month_lem_example = days_in_month_lem january_31

abbrev a_line : UsageLine ℤ
a_line = record {
  template = record { sensor = "replicas"; service = ""; family = "ec2"; attrs = [] };
  quantity = pos 3000000;
}

abbrev price_list : String → Attrs → Result String (Quote ℤ)
price_list family attrs = if str_eq family "ec2" then ok hourly else err "unknown"

abbrev other_line : UsageLine ℤ
other_line = record a_line {
  template = record { sensor = "disk"; service = ""; family = "ebs"; attrs = [] };
}

estimate_spend_lem_example :
    ((estimate_spend ⦃fl = fixed⦄ price_list (a_line ∷ other_line ∷ [])).lines
      ≡ rows ⦃fl = fixed⦄ price_list (a_line ∷ other_line ∷ []))
    × ((estimate_spend ⦃fl = fixed⦄ price_list (a_line ∷ other_line ∷ [])).total ≡ pos 288000)
    × ((estimate_spend ⦃fl = fixed⦄ price_list (a_line ∷ other_line ∷ [])).stale ≡ false)
unfolding slo_sentinel.Prelude.Int.◌+ℤ◌ slo_sentinel.Prelude.Int.◌*ℤ◌ slo_sentinel.Prelude.Int.◌/ℤ◌
estimate_spend_lem_example = estimate_spend_lem ⦃fl = fixed⦄ price_list (a_line ∷ other_line ∷ [])

abbrev an_offer : List Section
an_offer =
    products_section
      (("A", record { sku = "A"; product_family = "Compute Instance"; attributes = [] }) ∷ [])
    ∷ terms_section (
        (
          "OnDemand",
          (
            "A",
            (
              "t",
              record {
                offer_term_code = "t";
                price_dimensions =
                    (
                      "d",
                      record { unit = "Hrs"; description = ""; price_per_unit = ("USD", "2") ∷ [] },
                    )
                    ∷ [];
              },
            )
                ∷ [],
          )
              ∷ [],
        )
        ∷ [])
    ∷ []

a_rate :
    find_on_demand_rates ⦃fl = fixed⦄ an_offer (λ sku family a. true) 5
    ≡ ok (record { sku = "A"; unit = "Hrs"; currency = "USD"; price_per_unit = pos 2000000 } ∷ [])
unfolding find_on_demand_rates slo_sentinel.Pricing.Bulk.scan_sections
    slo_sentinel.Pricing.Bulk.scan_section slo_sentinel.Pricing.Bulk.scan_terms
    slo_sentinel.Pricing.Bulk.scan_on_demand slo_sentinel.Prelude.Dict.lookup
    slo_sentinel.Pricing.Bulk.scan_products slo_sentinel.Prelude.Dict.update
    slo_sentinel.Pricing.Bulk.rate_in_terms slo_sentinel.Pricing.Rates.first_rate
    slo_sentinel.Pricing.Rates.first_rate_of slo_sentinel.Pricing.Rates.sort_strings
    slo_sentinel.Pricing.Rates.sort_texts_loop slo_sentinel.Pricing.Rates.sink_text
    slo_sentinel.Pricing.Rates.rate_of_prices slo_sentinel.Pricing.Rates.parse_price
    slo_sentinel.Promdur.trim_space
a_rate = refl

find_on_demand_rates-eq-ok_example :
    (0 < 1) × (1 ≤ at_least_one ⦃fl = fixed⦄ 5) × SectionsOnDemand ⦃fl = fixed⦄ an_offer
find_on_demand_rates-eq-ok_example =
    find_on_demand_rates-eq-ok ⦃fl = fixed⦄ an_offer (λ sku family a. true) 5
      (record { sku = "A"; unit = "Hrs"; currency = "USD"; price_per_unit = pos 2000000 } ∷ [])
      a_rate

abbrev idle_rule : Rule
idle_rule = record {
  record_name = "";
  alert = "IdleDisk";
  expr = "idle";
  for_time = pos 0;
  for_set = false;
  labels = [];
  annotations = [];
  kind = waste;
  source_file = "w.yaml";
}

abbrev rules : Catalog
rules = record { groups = record { name = "g"; rules = idle_rule ∷ [] } ∷ []; version = "" }

-- A source with one sample above the limit.
abbrev always : Source ℤ
always = record {
  instant_query = λ q at. err "";
  range_query = λ q from to step.
      ok (record { labels = []; samples = record { time = pos 0; value = pos 1000000 } ∷ [] } ∷ []);
}

abbrev nothing_decodes : Decoders ℤ
nothing_decodes = record { attrs_of_json = λ s. none; scan_float = λ s. none }

scan-Scanned_example :
    Scanned ⦃fl = fixed⦄ always no_pricer nothing_decodes
      (pos 0)
      (rules_of_kind waste rules)
      (scan ⦃fl = fixed⦄ always no_pricer nothing_decodes (pos 0) rules)
scan-Scanned_example = scan-Scanned ⦃fl = fixed⦄ always no_pricer nothing_decodes (pos 0) rules
