-- ===== src/Pricing/Products/Pages.antt =====
-- What `GetProducts` collects, and that it ends.
use slo_sentinel.Prelude.{
  ℕ, zero, suc, ◌+◌, ◌≤◌, String, ◌≡◌, ap, ◌≢◌, ◌⊎◌, inl, inr, Bool, true, false, ◌||◌, Option,
  none, some, List, [], ◌∷◌, ◌++◌, arith, str_eq, ltb, ◌==◌, Bool-cases, Result, ok, err,
  >>=-eq-err,
}
use slo_sentinel.Pricing.Types.{QueryError, out_of_fuel}
use slo_sentinel.Pricing.Rates.{QueryProduct}
use slo_sentinel.Pricing.Products.{
  QueryFilter, Service, PageAnswer, not_built, not_sent, not_read, answered, PageBody,
  read_elements, read_page, page_at, read_body, request, after_page, get_products_loop,
  get_products,
}

-- Whether the loop stops after a page with this token.
abbrev pub is_last : ℕ → String → Bool
is_last page token = str_eq token "" || ltb 100 page

-- The products of a page and those after it: each page hands its token to the next request.
pub data Listing (service : Service) (code : String) (filters : List QueryFilter)
    : ℕ → String → List QueryProduct → Type 0 where
  last_page :
      {page : ℕ} {next token : String} {ps : List QueryProduct}
      → page_at service code filters page next ≡ ok (ps, token)
      → is_last page token ≡ true
      → Listing service code filters page next ps
  more_pages :
      {page : ℕ} {next token : String} {ps qs : List QueryProduct}
      → page_at service code filters page next ≡ ok (ps, token)
      → is_last page token ≡ false
      → Listing service code filters (suc page) token qs
      → Listing service code filters page next (ps ++ qs)

read_elements-fuel : (es : List (Option QueryProduct)) → read_elements es ≢ err out_of_fuel
unfolding read_elements
read_elements-fuel [] h = cc
read_elements-fuel (none ∷ es) h = cc
read_elements-fuel (some p ∷ es) h = elim (>>=-eq-err (read_elements es) (λ ps. ok (p ∷ ps)) h) [
  | inl e ↦ read_elements-fuel es e
  | inr (ps, e, q) ↦ cc
]

read_body-fuel : (b : Option PageBody) → read_body b ≢ err out_of_fuel
read_body-fuel none h = cc
read_body-fuel (some b) h =
    elim (>>=-eq-err (read_elements b.price_list) (λ ps. ok (ps, b.next_token)) h) [
      | inl e ↦ read_elements-fuel b.price_list e
      | inr (ps, e, q) ↦ cc
    ]

read_page-fuel : (a : PageAnswer) → read_page a ≢ err out_of_fuel
unfolding read_page
read_page-fuel not_built h = cc
read_page-fuel not_sent h = cc
read_page-fuel not_read h = cc
read_page-fuel (answered status b) h = elim (Bool-cases (status == 200)) [
  | inl e ↦ read_body-fuel b (ground (arith, e, h))
  | inr e ↦ cc
]

not_last : (page : ℕ) (token : String) → is_last page token ≡ false → page ≤ 100
not_last page token h = ground arith

after_page-eq-err :
    (page : ℕ) (out : List QueryProduct)
    (rest : String → List QueryProduct → Result QueryError (List QueryProduct))
    (r : Result QueryError (List QueryProduct × String)) (e : QueryError)
    → after_page page out rest r ≡ err e
    → (r ≡ err e)
      ⊎ ((qs : List QueryProduct) × (token : String) × (is_last page token ≡ false)
          × (rest token (out ++ qs) ≡ err e))
after_page-eq-err page out rest (err e') e h = (let same : e' ≡ e = cc in inl (ap err same))
after_page-eq-err page out rest (ok (qs, token)) e h = elim (Bool-cases (is_last page token)) [
  | inl l ↦ cc (l, h)
  | inr l ↦ inr (qs, token, l, ground (arith, l, h))
]

module _ (service : Service) (code : String) (filters : List QueryFilter) where
  loop-fuel :
      (fuel page : ℕ) (next : String) (out : List QueryProduct)
      → 102 ≤ fuel + page
      → page ≤ 101
      → get_products_loop service code filters fuel page next out ≢ err out_of_fuel
  unfolding get_products_loop
  loop-fuel zero page next out h k e = ground arith
  loop-fuel (suc fuel) page next out h k e =
      elim (after_page-eq-err page out (get_products_loop service code filters fuel (suc page))
        (page_at service code filters page next) out_of_fuel e) [
          | inl q ↦ read_page-fuel (service page (request code filters next)) q
          | inr (qs, token, l, q) ↦
              loop-fuel fuel (suc page) token (out ++ qs) (omega arith)
                (omega (arith, not_last page token l)) q
        ]

  -- `GetProducts` always returns: its loop never needs a page more than the 102 that it may ask for.
  pub get_products_terminates : get_products service code filters ≢ err out_of_fuel
  unfolding get_products
  get_products_terminates = loop-fuel 102 0 "" [] (omega arith) (omega arith)
