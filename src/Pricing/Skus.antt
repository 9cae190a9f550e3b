-- ===== src/Pricing/Skus.antt =====
-- internal/pricing/alicloud_sku.go: the price list of Alibaba Cloud, and its signed parameters. Texts
-- that are encoded are lists of bytes.
pub mod Encoding
use slo_sentinel.Prelude.{
  ℕ, ◌+◌, ◌-◌, ◌/◌, ◌%◌, String, Bool, ◌&&◌, ◌||◌, not, Option, none, some, List, [], ◌∷◌, ◌++◌,
  str_eq, ltb, leb, ◌==◌, if◌then◌else◌, Result, ok, err,
}
use slo_sentinel.Pricing.Types.{
  SkuError, no_key, sku_bad_request, sku_request_failed, sku_bad_answer, no_sku, sku_bad_status,
}

pub record SkuPrice (F : Type 0) : Type 0 where
  pub code : String
  pub module_code : String
  pub price : F
  pub currency : String
  pub pricing_unit : String

pub record SkuModule (F : Type 0) : Type 0 where
  pub module_code : String
  pub price : F
  pub currency : String
  pub pricing_unit : String

-- A SKU of the answer: its code and the list of its modules.
abbrev pub Sku : Type 0 → Type 0
Sku F = String × List (SkuModule F)

-- How the request ends; the body is `none` where it does not decode.
pub data SkuAnswer (F : Type 0) : Type 0 where
  sku_not_built sku_not_sent : SkuAnswer F
  sku_answered : ℕ → Option (List (Sku F)) → SkuAnswer F

pub record AlicloudSku : Type 0 where
  pub access_key_id : String
  pub access_key_secret : String

module _ {F : Type 0} where
  pub module_prices : String → List (SkuModule F) → List (SkuPrice F)
  module_prices code [] = []
  module_prices code (m ∷ ms) =
      record {
        code = code;
        module_code = m.module_code;
        price = m.price;
        currency = m.currency;
        pricing_unit = m.pricing_unit;
      }
      ∷ module_prices code ms

  pub sku_prices : List (Sku F) → List (SkuPrice F)
  sku_prices [] = []
  sku_prices ((code, ms) ∷ skus) = module_prices code ms ++ sku_prices skus

  abbrev pub some_prices : List (SkuPrice F) → Result SkuError (List (SkuPrice F))
  some_prices [] = err no_sku
  some_prices (p ∷ ps) = ok (p ∷ ps)

  -- `parseQuerySkuPriceList`.
  unfoldable pub parse_query_sku_price_list :
      Option (List (Sku F)) → Result SkuError (List (SkuPrice F))
  parse_query_sku_price_list none = err sku_bad_answer
  parse_query_sku_price_list (some skus) = some_prices (sku_prices skus)

  abbrev pub read_answer : SkuAnswer F → Result SkuError (List (SkuPrice F))
  read_answer sku_not_built = err sku_bad_request
  read_answer sku_not_sent = err sku_request_failed
  read_answer (sku_answered status body) =
      if not (status == 200) then err (sku_bad_status status) else parse_query_sku_price_list body

  -- `QuerySkuPriceList`, with the answer that its request gets.
  unfoldable pub query_sku_price_list :
      AlicloudSku → SkuAnswer F → Result SkuError (List (SkuPrice F))
  query_sku_price_list a answer =
      if str_eq a.access_key_id "" || str_eq a.access_key_secret ""
      then err no_key
      else read_answer answer

abbrev pub in_range : ℕ → ℕ → ℕ → Bool
in_range low high ch = leb low ch && leb ch high

abbrev pub is_unreserved : ℕ → Bool
is_unreserved ch =
    in_range b'A' b'Z' ch
    || in_range b'a' b'z' ch
    || in_range b'0' b'9' ch
    || ch == b'-'
    || ch == b'_'
    || ch == b'.'
    || ch == b'~'

-- A digit of `%02X`.
abbrev pub hex_digit : ℕ → ℕ
hex_digit n = if ltb n 10 then b'0' + n else b'A' + (n - 10)

-- `popEncode`.
unfoldable pub pop_encode : List ℕ → List ℕ
pop_encode [] = []
pop_encode (ch ∷ s) =
    let rest = pop_encode s in
    if is_unreserved ch then ch ∷ rest else b'%' ∷ hex_digit (ch / 16) ∷ hex_digit (ch % 16) ∷ rest
