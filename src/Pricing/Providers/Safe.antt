-- ===== src/Pricing/Providers/Safe.antt =====
-- The first element of a list of rates or prices is always there when it is read.
use slo_sentinel.Prelude.{
  ◌<◌, String, ◌≡◌, refl, subst, ◌≢◌, inl, inr, Bool, true, false, ◌||◌, Option, none, some, List,
  [], ◌∷◌, arith, str_eq, ◌==◌, Bool-cases, length, Result, ok, err, ◌>>=◌,
}
use slo_sentinel.Prelude.Float.{Float}
use slo_sentinel.Pricing.Types.{
  sku_bad_answer, sku_bad_status, sku_failed, no_key, no_credentials, Attrs, Quote, QueryError,
  BulkError, QuoteError, index_out_of_range, index_failed, offer_failed, attr, get, ec2_not_found,
  storage_not_found, no_instance_type, fam_ec2, fam_ebs, fam_rds, unsupported,
}
use slo_sentinel.Pricing.Rates.{Rate, QueryProduct}
use slo_sentinel.Pricing.Products.{QueryFilter, get_products}
use slo_sentinel.Pricing.Bulk.{ProductMatcher, Section, locate_offer_url, find_on_demand_rates}
use slo_sentinel.Pricing.Bulk.Bounds.{find_on_demand_rates-eq-ok}
use slo_sentinel.Pricing.Skus.{
  read_answer, AlicloudSku, SkuAnswer, SkuPrice, sku_not_built, sku_not_sent, sku_answered,
  some_prices, sku_prices, parse_query_sku_price_list, query_sku_price_list,
}
use slo_sentinel.Pricing.Providers.{
  Providers, ec2_filters, ebs_filters, rds_filters, matches_ec2, first_quote, or_bulk, downloaded,
  found_or, ec2_bulk, ec2_failed, ec2_of_products, ec2_quote, storage_of_products, storage_quote,
  resolve_aws, prices_quote, resolve_ali, resolve, compute_quote, storage_rate,
}

abbrev is_panic : QuoteError → Bool
is_panic index_out_of_range = true
is_panic _ = false

module _ ⦃fl : Float⦄ where
  open fl use {F}

  first_quote-safe :
      (rates : List (Rate F)) → 0 < length rates → first_quote rates ≢ err index_out_of_range
  first_quote-safe [] p h = ground arith
  first_quote-safe (r ∷ rs) p h = cc

  or_bulk-safe :
      {A : Type 0} (r : Result BulkError A) (next : A → Result QuoteError (Quote F))
      → ((a : A) → r ≡ ok a → next a ≢ err index_out_of_range)
      → (or_bulk r >>= next) ≢ err index_out_of_range
  or_bulk-safe (ok a) next n h = n a refl h
  or_bulk-safe (err e) next n h = cc

  -- The steps of `ec2Bulk` from the last one on.
  rates-safe :
      (file : List Section) (m : ProductMatcher)
      → (or_bulk (find_on_demand_rates file m 5) >>= first_quote) ≢ err index_out_of_range
  rates-safe file m =
      or_bulk-safe (find_on_demand_rates file m 5) first_quote
        λ rates e. first_quote-safe rates (find_on_demand_rates-eq-ok file m 5 rates e).0

  offer-safe :
      (p : Providers F) (url : String) (m : ProductMatcher)
      → (or_bulk (downloaded offer_failed (p.offer_at url)) >>= λ file.
          or_bulk (find_on_demand_rates file m 5) >>= first_quote)
        ≢ err index_out_of_range
  offer-safe p url m =
      or_bulk-safe (downloaded offer_failed (p.offer_at url))
        (λ file. or_bulk (find_on_demand_rates file m 5) >>= first_quote)
        λ file e. rates-safe file m

  ec2_bulk-safe :
      (p : Providers F) (region instance_type os_name : String)
      → ec2_bulk p region instance_type os_name ≢ err index_out_of_range
  unfolding ec2_bulk
  ec2_bulk-safe p region instance_type os_name =
      or_bulk-safe (downloaded index_failed p.index_file) _ λ index i.
        or_bulk-safe (locate_offer_url index "AmazonEC2" region) _
          λ url u. offer-safe p url (matches_ec2 instance_type os_name)

  found_or-safe :
      (e : QuoteError) (o : Option (Quote F))
      → e ≢ index_out_of_range
      → found_or e o ≢ err index_out_of_range
  found_or-safe e none n h = (let same : e ≡ index_out_of_range = cc in n same)
  found_or-safe e (some q) n h = cc

  ec2_failed-safe :
      (p : Providers F) (region instance_type os_name : String) (attrs : Attrs)
      (e : Option QueryError)
      → ec2_failed p region instance_type os_name attrs e ≢ err index_out_of_range
  ec2_failed-safe p region instance_type os_name attrs e h =
      ground (arith, ec2_bulk-safe p region instance_type os_name, h)

  not_the_panic : (e : QuoteError) → is_panic e ≡ false → e ≢ index_out_of_range
  not_the_panic e h q =
      (let same : is_panic index_out_of_range ≡ false = subst (λ x. is_panic x ≡ false) q h in cc)

  abbrev fails : QuoteError → Result QuoteError (Quote F)
  fails e = err e

  not_the_err : (e : QuoteError) → is_panic e ≡ false → fails e ≢ fails index_out_of_range
  not_the_err e h q = (let same : e ≡ index_out_of_range = cc in not_the_panic e h same)

  ec2_of_products-safe :
      (p : Providers F) (region instance_type os_name : String) (attrs : Attrs)
      (r : Result QueryError (List QueryProduct))
      → ec2_of_products p region instance_type os_name attrs r ≢ err index_out_of_range
  ec2_of_products-safe p region instance_type os_name attrs (err e) =
      ec2_failed-safe p region instance_type os_name attrs (some e)
  ec2_of_products-safe p region instance_type os_name attrs (ok []) =
      ec2_failed-safe p region instance_type os_name attrs none
  ec2_of_products-safe p region instance_type os_name attrs (ok (q ∷ qs)) =
      found_or-safe ec2_not_found (compute_quote (q ∷ qs)) (not_the_panic ec2_not_found refl)

  ec2_quote-safe :
      (p : Providers F) (region : String) (attrs : Attrs)
      → ec2_quote p region attrs ≢ err index_out_of_range
  unfolding ec2_quote
  ec2_quote-safe p region attrs h = elim (Bool-cases (str_eq (attr "instance_type" attrs) "")) [
    | inl e ↦ not_the_err no_instance_type refl (ground (arith, e, h))
    | inr e ↦
        ec2_of_products-safe p region (attr "instance_type" attrs) (get attrs "os" "Linux") attrs
          (get_products p.query_api "AmazonEC2"
            (ec2_filters region (attr "instance_type" attrs) (get attrs "os" "Linux")))
          (ground (arith, e, h))
  ]

  storage_of_products-safe :
      (r : Result QueryError (List QueryProduct)) → storage_of_products r ≢ err index_out_of_range
  storage_of_products-safe (err e) h = cc
  storage_of_products-safe (ok ps) h =
      found_or-safe storage_not_found (storage_rate ps) (not_the_panic storage_not_found refl) h

  storage_quote-safe :
      (p : Providers F) (code region : String) (extra : List QueryFilter)
      → storage_quote p code region extra ≢ err index_out_of_range
  unfolding storage_quote
  storage_quote-safe p code region extra = storage_of_products-safe _

  resolve_aws-safe :
      (p : Providers F) (family : String) (attrs : Attrs)
      → resolve_aws p family attrs ≢ err index_out_of_range
  unfolding resolve_aws
  resolve_aws-safe p family attrs h = elim (Bool-cases (str_eq family fam_ec2)) [
    | inl e ↦ ec2_quote-safe p (get attrs "region" "us-east-1") attrs (ground (arith, e, h))
    | inr e ↦ elim (Bool-cases (str_eq family fam_ebs)) [
      | inl e' ↦
          storage_quote-safe p "AmazonEC2" (get attrs "region" "us-east-1") (ebs_filters attrs)
            (ground (arith, e, e', h))
      | inr e' ↦ elim (Bool-cases (str_eq family fam_rds)) [
        | inl e'' ↦
            storage_quote-safe p "AmazonRDS" (get attrs "region" "us-east-1") (rds_filters attrs)
              (ground (arith, e, e', e'', h))
        | inr e'' ↦ not_the_err (unsupported family) refl (ground (arith, e, e', e'', h))
      ]
    ]
  ]

  some_prices-safe :
      (ps : List (SkuPrice F)) → prices_quote (some_prices ps) ≢ err index_out_of_range
  some_prices-safe [] h = cc
  some_prices-safe (p ∷ ps) h = cc

  read_answer-safe : (a : SkuAnswer F) → prices_quote (read_answer a) ≢ err index_out_of_range
  unfolding parse_query_sku_price_list
  read_answer-safe sku_not_built h = cc
  read_answer-safe sku_not_sent h = cc
  read_answer-safe (sku_answered status none) h = elim (Bool-cases (status == 200)) [
    | inl e ↦ not_the_err (sku_failed sku_bad_answer) refl (ground (arith, e, h))
    | inr e ↦ not_the_err (sku_failed (sku_bad_status status)) refl (ground (arith, e, h))
  ]
  read_answer-safe (sku_answered status (some skus)) h = elim (Bool-cases (status == 200)) [
    | inl e ↦ some_prices-safe (sku_prices skus) (ground (arith, e, h))
    | inr e ↦ not_the_err (sku_failed (sku_bad_status status)) refl (ground (arith, e, h))
  ]

  prices_quote-safe :
      (ali : AlicloudSku) (a : SkuAnswer F)
      → prices_quote (query_sku_price_list ali a) ≢ err index_out_of_range
  unfolding query_sku_price_list
  prices_quote-safe ali a h =
      elim (Bool-cases (str_eq ali.access_key_id "" || str_eq ali.access_key_secret "")) [
        | inl e ↦ not_the_err (sku_failed no_key) refl (ground (arith, e, h))
        | inr e ↦ read_answer-safe a (ground (arith, e, h))
      ]

  resolve_ali-safe :
      (ali : Option AlicloudSku) (p : Providers F) (family : String) (attrs : Attrs)
      → resolve_ali ali p family attrs ≢ err index_out_of_range
  unfolding resolve_ali
  resolve_ali-safe none p family attrs = not_the_err no_credentials refl
  resolve_ali-safe (some ali) p family attrs = prices_quote-safe ali _

  -- Whatever the providers answer, resolving a price does not read an element of an empty list: the
  -- rates of an offer file and the prices of a SKU list are errors where there are none.
  pub resolve-safe :
      (ali : Option AlicloudSku) (p : Providers F) (family : String) (attrs : Attrs)
      → resolve ali p family attrs ≢ err index_out_of_range
  unfolding resolve
  resolve-safe ali p family attrs h =
      elim (Bool-cases (str_eq (get attrs "cloud" "aws") "alicloud")) [
        | inl e ↦ resolve_ali-safe ali p family attrs (ground (arith, e, h))
        | inr e ↦ resolve_aws-safe p family attrs (ground (arith, e, h))
      ]
