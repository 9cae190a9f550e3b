-- ===== src/Pricing/Types.antt =====
-- internal/pricing/types.go: the families of prices, the attributes of a query and a quote.
use slo_sentinel.Prelude.{ℕ, String, Bool, true, false, Option, none, some, str_eq, if◌then◌else◌}
use slo_sentinel.Prelude.Dict.{Dict, lookup}

-- The names of the three families of AWS.
abbrev pub fam_ec2 : String
fam_ec2 = "ec2"

abbrev pub fam_ebs : String
fam_ebs = "ebs"

abbrev pub fam_rds : String
fam_rds = "rds"

abbrev pub Attrs : Type 0
Attrs = Dict String

-- `attrs[key]`, the empty text where the key is missing.
abbrev pub attr : String → Attrs → String
attr key attrs = elim (lookup key attrs) [ none ↦ "" | some v ↦ v ]

-- `get`.
abbrev pub get : Attrs → String → String → String
get attrs key default = if str_eq (attr key attrs) "" then default else attr key attrs

pub record Quote (F : Type 0) : Type 0 where
  pub unit_price : F
  pub currency : String
  pub unit : String
  pub source : String
  pub stale : Bool

-- Why the query API gives no products.
pub data QueryError : Type 0 where
  bad_request request_failed read_failed : QueryError
  bad_status : ℕ → QueryError
  bad_answer bad_element : QueryError
  out_of_fuel : QueryError

-- Why the bulk files give no rate.
pub data BulkError : Type 0 where
  index_failed bad_index : BulkError
  no_service no_offer : BulkError
  offer_failed bad_offer : BulkError
  no_rates : BulkError

-- Why the list of SKU prices is not there.
pub data SkuError : Type 0 where
  no_key sku_bad_request sku_request_failed sku_bad_answer no_sku : SkuError
  sku_bad_status : ℕ → SkuError

-- Why there is no quote, with the error that it wraps; `none` is a nil error that `%w` wraps, and
-- `index_out_of_range` a run-time panic.
pub data QuoteError : Type 0 where
  no_credentials : QuoteError
  no_instance_type : QuoteError
  unsupported : String → QuoteError
  ec2_not_found : QuoteError
  ec2_query : Option QueryError → QuoteError
  bulk : BulkError → QuoteError
  storage_not_found : QuoteError
  storage_query : QueryError → QuoteError
  sku_failed : SkuError → QuoteError
  index_out_of_range : QuoteError

-- Whether `errors.Is(err, ErrNotFound)`.
pub is_not_found : QuoteError → Bool
is_not_found ec2_not_found = true
is_not_found storage_not_found = true
is_not_found (bulk no_service) = true
is_not_found (bulk no_rates) = true
is_not_found (sku_failed no_sku) = true
is_not_found _ = false
