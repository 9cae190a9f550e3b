-- ===== src/Pricing/Products.antt =====
-- internal/pricing/aws_query.go: the pages of the Price List Query API. The service is a parameter:
-- what it answers to the request of each page.
pub mod Pages
use slo_sentinel.Prelude.{
  ℕ, zero, suc, ◌+◌, String, ◌||◌, not, Option, none, some, List, [], ◌∷◌, ◌++◌, str_eq, ltb, ◌==◌,
  if◌then◌else◌, Result, ok, err, ◌>>=◌, ◌>>◌,
}
use slo_sentinel.Pricing.Types.{
  QueryError, bad_request, request_failed, read_failed, bad_status, bad_answer, bad_element,
  out_of_fuel,
}
use slo_sentinel.Pricing.Rates.{QueryProduct}

pub record QueryFilter : Type 0 where
  pub field : String
  pub value : String

pub record QueryWire : Type 0 where
  pub field : String
  pub match_type : String
  pub value : String

-- The body of a request; an empty token is left out of it.
pub record QueryRequest : Type 0 where
  pub service_code : String
  pub filters : List QueryWire
  pub max_results : ℕ
  pub next_token : String

-- A page as its body decodes: the elements, `none` for one that is not a product, and the token of
-- the next page.
pub record PageBody : Type 0 where
  pub price_list : List (Option QueryProduct)
  pub next_token : String

-- How a request ends; the body is `none` where it is not JSON.
pub data PageAnswer : Type 0 where
  not_built not_sent not_read : PageAnswer
  answered : ℕ → Option PageBody → PageAnswer

abbrev pub Service : Type 0
Service = ℕ → QueryRequest → PageAnswer

pub wire : List QueryFilter → List QueryWire
wire [] = []
wire (f ∷ fs) = record { field = f.field; match_type = "TERM_MATCH"; value = f.value } ∷ wire fs

pub request : String → List QueryFilter → String → QueryRequest
request service_code filters next = record {
  service_code = service_code;
  filters = wire filters;
  max_results = 100;
  next_token = next;
}

-- The first element that is not a product is an error.
pub read_elements : List (Option QueryProduct) → Result QueryError (List QueryProduct)
read_elements [] = ok []
read_elements (none ∷ es) = err bad_element
read_elements (some p ∷ es) = read_elements es >>= λ ps. ok (p ∷ ps)

abbrev pub read_body : Option PageBody → Result QueryError (List QueryProduct × String)
read_body none = err bad_answer
read_body (some b) = read_elements b.price_list >>= λ ps. ok (ps, b.next_token)

pub read_page : PageAnswer → Result QueryError (List QueryProduct × String)
read_page not_built = err bad_request
read_page not_sent = err request_failed
read_page not_read = err read_failed
read_page (answered status body) =
    if not (status == 200) then err (bad_status status) else read_body body

-- What the loop does after a page: `rest` is the loop from the next page on.
abbrev pub after_page :
    ℕ
    → List QueryProduct
    → (String → List QueryProduct → Result QueryError (List QueryProduct))
    → Result QueryError (List QueryProduct × String)
    → Result QueryError (List QueryProduct)
after_page page out rest (err e) = err e
after_page page out rest (ok (ps, token)) =
    let later = rest token (out ++ ps) in
    if str_eq token "" || ltb 100 page then ok (out ++ ps) else later

module _ (service : Service) (service_code : String) (filters : List QueryFilter) where
  abbrev pub page_at : ℕ → String → Result QueryError (List QueryProduct × String)
  page_at page next = read_page (service page (request service_code filters next))

  pub get_products_loop : ℕ → ℕ → String → List QueryProduct → Result QueryError (List QueryProduct)
  get_products_loop zero page next out = err out_of_fuel
  get_products_loop (suc fuel) page next out =
      after_page page out (get_products_loop fuel (suc page)) (page_at page next)

  -- `GetProducts`: the loop ends at page 101 at the latest.
  pub get_products : Result QueryError (List QueryProduct)
  get_products = get_products_loop 102 0 "" []
