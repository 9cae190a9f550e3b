-- ===== src/Pricing/Providers.antt =====
-- internal/pricing/catalog.go: a quote from its provider.
pub mod Safe
use slo_sentinel.Prelude.{
  ◌+◌, ◌-◌, String, Bool, false, ◌&&◌, not, Option, none, some, List, [], ◌∷◌, ◌++◌, str_eq,
  if◌then◌else◌, Result, ok, err, ◌>>=◌,
}
use slo_sentinel.Prelude.Dict.{Dict}
use slo_sentinel.Prelude.Float.{Float}
use slo_sentinel.Pricing.Types.{
  Attrs, attr, get, fam_ec2, fam_ebs, fam_rds, Quote, QueryError, BulkError, index_failed,
  offer_failed, QuoteError, SkuError, no_credentials, no_instance_type, unsupported, ec2_not_found,
  ec2_query, bulk, storage_not_found, storage_query, sku_failed, index_out_of_range,
}
use slo_sentinel.Pricing.Rates.{Rate, QueryProduct, rate_of}
use slo_sentinel.Pricing.Products.{QueryFilter, Service, get_products}
use slo_sentinel.Pricing.Bulk.{IndexOffer, Section, locate_offer_url, find_on_demand_rates}
use slo_sentinel.Pricing.Skus.{AlicloudSku, SkuAnswer, SkuPrice, query_sku_price_list}

-- What the providers answer: each request of the query API, the index and the offer files of the bulk API
-- (`none` where the download fails), and the list of SKU prices for a family, a subscription and a region.
pub record Providers (F : Type 0) : Type 0 where
  pub query_api : Service
  pub index_file : Option (Option (Dict IndexOffer))
  pub offer_at : String → Option (List Section)
  pub sku_list : String → String → String → SkuAnswer F

abbrev pub filter_on : String → String → QueryFilter
filter_on field value = record { field = field; value = value }

abbrev pub filter_if_set : String → String → List QueryFilter
filter_if_set field value = if str_eq value "" then [] else filter_on field value ∷ []

abbrev pub matches_ec2 : String → String → String → String → Dict String → Bool
matches_ec2 instance_type os_name sku family a =
    str_eq family "Compute Instance"
    && str_eq (attr "instanceType" a) instance_type
    && str_eq (attr "operatingSystem" a) os_name
    && str_eq (attr "capacitystatus" a) "Used"
    && str_eq (attr "preInstalledSw" a) "NA"

module _ ⦃fl : Float⦄ where
  open fl use {F}

  abbrev pub quote_of : String → Rate F → Quote F
  quote_of source r = record {
    unit_price = r.price_per_unit;
    currency = r.currency;
    unit = r.unit;
    source = source;
    stale = false;
  }

  -- `rates[0]`, a panic where there is none.
  abbrev pub first_quote : List (Rate F) → Result QuoteError (Quote F)
  first_quote [] = err index_out_of_range
  first_quote (r ∷ rs) = ok (quote_of "aws-bulk" r)

  abbrev pub or_bulk {ℓ} : {A : Type ℓ} → Result BulkError A → Result QuoteError A
  or_bulk (ok a) = ok a
  or_bulk (err e) = err (bulk e)

  abbrev pub downloaded {ℓ} : {A : Type ℓ} → BulkError → Option A → Result BulkError A
  downloaded e none = err e
  downloaded e (some a) = ok a

  -- `ec2Bulk`.
  pub ec2_bulk : Providers F → String → String → String → Result QuoteError (Quote F)
  ec2_bulk p region instance_type os_name = do
    index ← or_bulk (downloaded index_failed p.index_file)
    url ← or_bulk (locate_offer_url index "AmazonEC2" region)
    file ← or_bulk (downloaded offer_failed (p.offer_at url))
    rates ← or_bulk (find_on_demand_rates file (matches_ec2 instance_type os_name) 5)
    first_quote rates

  abbrev pub quote_or : Option (Rate F) → Option (Quote F) → Option (Quote F)
  quote_or none rest = rest
  quote_or (some r) rest = some (quote_of "aws-query" r)

  -- The first product of the family that has a rate.
  pub compute_quote : List QueryProduct → Option (Quote F)
  compute_quote [] = none
  compute_quote (p ∷ ps) =
      let rest = compute_quote ps in
      if not (str_eq p.product_family "Compute Instance") then rest else quote_or (rate_of p) rest

  pub storage_rate : List QueryProduct → Option (Quote F)
  storage_rate [] = none
  storage_rate (p ∷ ps) = quote_or (rate_of p) (storage_rate ps)

  -- What `ec2Quote` makes of the products. A list without products is nil, and so is its error, so it
  -- falls to the last lines like a request that failed.
  abbrev pub ec2_failed :
      Providers F
      → String
      → String
      → String
      → Attrs
      → Option QueryError
      → Result QuoteError (Quote F)
  ec2_failed p region instance_type os_name attrs e =
      if not (str_eq (attr "source" attrs) "bulk")
      then err (ec2_query e)
      else ec2_bulk p region instance_type os_name

  abbrev pub found_or : QuoteError → Option (Quote F) → Result QuoteError (Quote F)
  found_or e none = err e
  found_or e (some q) = ok q

  abbrev pub ec2_of_products :
      Providers F
      → String
      → String
      → String
      → Attrs
      → Result QueryError (List QueryProduct)
      → Result QuoteError (Quote F)
  ec2_of_products p region instance_type os_name attrs (err e) =
      ec2_failed p region instance_type os_name attrs (some e)
  ec2_of_products p region instance_type os_name attrs (ok []) =
      ec2_failed p region instance_type os_name attrs none
  ec2_of_products p region instance_type os_name attrs (ok (q ∷ qs)) =
      found_or ec2_not_found (compute_quote (q ∷ qs))

  abbrev pub ec2_filters : String → String → String → List QueryFilter
  ec2_filters region instance_type os_name =
      filter_on "regionCode" region
      ∷ filter_on "instanceType" instance_type
      ∷ filter_on "operatingSystem" os_name
      ∷ filter_on "capacitystatus" "Used"
      ∷ filter_on "preInstalledSw" "NA"
      ∷ []

  -- `ec2Quote`.
  pub ec2_quote : Providers F → String → Attrs → Result QuoteError (Quote F)
  ec2_quote p region attrs =
      let instance_type = attr "instance_type" attrs in
      let os_name = get attrs "os" "Linux" in
      if str_eq instance_type ""
      then err no_instance_type
      else ec2_of_products p region instance_type os_name attrs
          (get_products p.query_api "AmazonEC2" (ec2_filters region instance_type os_name))

  abbrev pub storage_of_products :
      Result QueryError (List QueryProduct) → Result QuoteError (Quote F)
  storage_of_products (err e) = err (storage_query e)
  storage_of_products (ok ps) = found_or storage_not_found (storage_rate ps)

  -- `storageQuote`.
  pub storage_quote : Providers F → String → String → List QueryFilter → Result QuoteError (Quote F)
  storage_quote p service_code region extra =
      storage_of_products
        (get_products p.query_api service_code (filter_on "regionCode" region ∷ extra))

  abbrev pub ebs_filters : Attrs → List QueryFilter
  ebs_filters attrs =
      filter_on "volumeType" (get attrs "volume_type" "gp3")
      ∷ filter_on "productFamily" "Storage"
      ∷ []

  abbrev pub rds_filters : Attrs → List QueryFilter
  rds_filters attrs =
      filter_on "productFamily" "Database Storage"
      ∷ (filter_if_set "databaseEngine" (attr "engine" attrs)
          ++ filter_if_set "volumeType" (attr "volume_type" attrs))

  -- `resolveAWS`.
  pub resolve_aws : Providers F → String → Attrs → Result QuoteError (Quote F)
  resolve_aws p family attrs =
      let region = get attrs "region" "us-east-1" in
      if str_eq family fam_ec2
      then ec2_quote p region attrs
      else if str_eq family fam_ebs
      then storage_quote p "AmazonEC2" region (ebs_filters attrs)
      else if str_eq family fam_rds
      then storage_quote p "AmazonRDS" region (rds_filters attrs)
      else err (unsupported family)

  -- `prices[0]`.
  abbrev pub first_price : List (SkuPrice F) → Result QuoteError (Quote F)
  first_price [] = err index_out_of_range
  first_price (p ∷ ps) = ok (record {
    unit_price = p.price;
    currency = p.currency;
    unit = p.pricing_unit;
    source = "alicloud-sku";
    stale = false;
  })

  abbrev pub prices_quote : Result SkuError (List (SkuPrice F)) → Result QuoteError (Quote F)
  prices_quote (err e) = err (sku_failed e)
  prices_quote (ok prices) = first_price prices

  -- `resolveAli`; the client is `none` where it is nil.
  pub resolve_ali : Option AlicloudSku → Providers F → String → Attrs → Result QuoteError (Quote F)
  resolve_ali none p family attrs = err no_credentials
  resolve_ali (some ali) p family attrs = prices_quote (
      query_sku_price_list ali
        (p.sku_list family (get attrs "subscription_type" "PayAsYouGo") (attr "region" attrs)))

  -- `resolve`.
  pub resolve : Option AlicloudSku → Providers F → String → Attrs → Result QuoteError (Quote F)
  resolve ali p family attrs =
      if str_eq (get attrs "cloud" "aws") "alicloud"
      then resolve_ali ali p family attrs
      else resolve_aws p family attrs
