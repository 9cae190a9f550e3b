-- ===== src/Pricing/Catalog/Abstract.antt =====
-- The abstract cache: a quote and the time of its storing under each key, and what a directory of
-- files looks like in it.
use slo_sentinel.Prelude.{
  ℕ, String, ◌≡◌, refl, ap, inl, inr, Bool, true, false, Option, none, some, List, [], ◌∷◌, arith,
  str_eq, if◌then◌else◌, Bool-cases, Result, ok, err,
}
use slo_sentinel.Prelude.Int.{ℤ, ltb_ℤ, ◌-ℤ◌}
use slo_sentinel.Prelude.Float.{Float}
use slo_sentinel.Prelude.Text.{same_text}
use slo_sentinel.Pricing.Types.{Quote, QuoteError}
use slo_sentinel.Pricing.Cache.{
  Disk, writes, refuses, tears, Envelope, FileCache, envelope_at, load, as_hit,
}
use slo_sentinel.Pricing.Catalog.{fresh_quote, quote, as_stale, stale_quote}

-- One request of a quote, with the answer that the provider would give.
pub record Call (F : Type 0) : Type 0 where
  pub now : ℤ
  pub later : ℤ
  pub disk : Disk
  pub key : List ℕ
  pub resolved : Result QuoteError (Quote F)

abbrev pub Kept : Type 0 → Type 0
Kept F = Option (ℤ × Quote F)

pub same_text_refl : (a : List ℕ) → same_text a a ≡ true
same_text_refl [] = refl
same_text_refl (c ∷ a) = ground (arith, same_text_refl a)

pub same_text-eq : (a b : List ℕ) → same_text a b ≡ true → a ≡ b
same_text-eq [] [] h = refl
same_text-eq [] (d ∷ b) h = cc
same_text-eq (c ∷ a) [] h = cc
same_text-eq (c ∷ a) (d ∷ b) h = ground (arith, same_text-eq a b, h)

module _ {F : Type 0} where
  abbrev pub put_at : List ℕ → ℤ × Quote F → (List ℕ → Kept F) → List ℕ → Kept F
  put_at key v kept j = if same_text key j then some v else kept j

  -- What a write does to the quotes that are kept: a torn one loses the quote that was there.
  abbrev pub written : Disk → List ℕ → ℤ × Quote F → (List ℕ → Kept F) → List ℕ → Kept F
  written writes key v kept j = put_at key v kept j
  written refuses key v kept j = kept j
  written tears key v kept j = if same_text key j then none else kept j

  pub written_same :
      (w : Disk) (key : List ℕ) (v : ℤ × Quote F) (f g : List ℕ → Kept F) (j : List ℕ)
      → ((i : List ℕ) → f i ≡ g i)
      → written w key v f j ≡ written w key v g j
  written_same writes key v f g j same = ap (λ x. if same_text key j then some v else x) (same j)
  written_same refuses key v f g j same = same j
  written_same tears key v f g j same = ap (λ x. if same_text key j then none else x) (same j)

  -- The quote that is still fresh.
  abbrev pub fresh_in : ℤ → ℤ → Kept F → Option (Quote F)
  fresh_in now ttl none = none
  fresh_in now ttl (some (t, q)) = if ltb_ℤ (now -ℤ t) ttl then some q else none

  abbrev pub timed : ℤ → Option (Quote F) → Kept F
  timed t none = none
  timed t (some q) = some (t, q)

  abbrev pub quote_in : Kept F → Option (Quote F)
  quote_in none = none
  quote_in (some (t, q)) = some q

module _ ⦃fl : Float⦄ where
  open fl use {F}

  -- Where nothing fresh is kept: a quote of the provider is kept, if it can be, and an error is
  -- answered by what is kept, marked as old.
  abbrev pub ask_provider :
      Disk
      → Call F
      → Result QuoteError (Quote F)
      → (List ℕ → Kept F)
      → (List ℕ → Kept F) × Result QuoteError (Quote F)
  ask_provider keeps call (ok q) kept = (written keeps call.key (call.later, q) kept, ok q)
  ask_provider keeps call (err e) kept = (kept, as_stale e (quote_in (kept call.key)))

  abbrev pub serve :
      Disk
      → Call F
      → Result QuoteError (Quote F)
      → (List ℕ → Kept F)
      → Option (Quote F)
      → (List ℕ → Kept F) × Result QuoteError (Quote F)
  serve keeps call resolved kept (some q) = (kept, ok q)
  serve keeps call resolved kept none = ask_provider keeps call resolved kept

  -- The abstract cache: `keeps` says what becomes of a new quote.
  abbrev pub abstract_quote :
      ℤ
      → (Call F → Disk)
      → Call F
      → (List ℕ → Kept F)
      → (List ℕ → Kept F) × Result QuoteError (Quote F)
  abstract_quote ttl keeps call kept =
      serve (keeps call) call call.resolved kept (fresh_in call.now ttl (kept call.key))

  abbrev pub abstract_quotes :
      ℤ → (Call F → Disk) → List (Call F) → (List ℕ → Kept F) → List (Result QuoteError (Quote F))
  abstract_quotes ttl keeps [] kept = []
  abstract_quotes ttl keeps (call ∷ calls) kept =
      let step = abstract_quote ttl keeps call kept in
      step.1 ∷ abstract_quotes ttl keeps calls step.0

  module _ {Raw : Type 0} (hash : List ℕ → String) (decode : Raw → Option (Quote F))
      (encode : Quote F → Option Raw) where
    abbrev pub quote_call : ℤ → Call F → FileCache Raw → FileCache Raw × Result QuoteError (Quote F)
    quote_call ttl call c =
        quote hash decode encode ttl call.now call.later call.disk call.key call.resolved c

    abbrev pub quotes : ℤ → List (Call F) → FileCache Raw → List (Result QuoteError (Quote F))
    quotes ttl [] c = []
    quotes ttl (call ∷ calls) c =
        let step = quote_call ttl call c in step.1 ∷ quotes ttl calls step.0

    abbrev pub envelope_view : Option (Envelope Raw) → Kept F
    envelope_view none = none
    envelope_view (some e) = timed e.stored_at (decode e.payload)

    -- What a directory holds under a key; a cache without a directory holds nothing.
    abbrev pub view : FileCache Raw → List ℕ → Kept F
    view c key = if str_eq c.dir "" then none else envelope_view (envelope_at hash key c)

    -- A new quote is written where there is a directory and the quote has a JSON text.
    abbrev pub written_as : Bool → Disk → Option Raw → Disk
    written_as no_dir disk none = refuses
    written_as true disk (some raw) = refuses
    written_as false disk (some raw) = disk

    abbrev pub text_of : Result QuoteError (Quote F) → Option Raw
    text_of (ok q) = encode q
    text_of (err e) = none

    abbrev pub keeps_in : String → Call F → Disk
    keeps_in dir call = written_as (str_eq dir "") call.disk (text_of call.resolved)

    -- Two steps with one answer, the same view after them, and the directory that there was.
    abbrev pub Agrees :
        FileCache Raw
        → (List ℕ → Kept F)
        → FileCache Raw × Result QuoteError (Quote F)
        → (List ℕ → Kept F) × Result QuoteError (Quote F)
        → Type 0
    Agrees c kept (c', answer) (kept', answer') =
        (answer ≡ answer') × ((j : List ℕ) → view c' j ≡ kept' j) × (c'.dir ≡ c.dir)

    fresh_in-timed :
        (now ttl t : ℤ) (d : Option (Quote F))
        → (if ltb_ℤ (now -ℤ t) ttl then d else none) ≡ fresh_in now ttl (timed t d)
    fresh_in-timed now ttl t none = ground arith
    fresh_in-timed now ttl t (some q) = refl

    fresh_quote-envelope :
        (now ttl : ℤ) (o : Option (Envelope Raw))
        → fresh_quote hash decode encode (as_hit now ttl o) ≡ fresh_in now ttl (envelope_view o)
    fresh_quote-envelope now ttl none = refl
    fresh_quote-envelope now ttl (some e) = fresh_in-timed now ttl e.stored_at (decode e.payload)

    as_stale-timed :
        (x : QuoteError) (t : ℤ) (d : Option (Quote F))
        → as_stale x d ≡ as_stale x (quote_in (timed t d))
    as_stale-timed x t none = refl
    as_stale-timed x t (some q) = refl

    stale_quote-envelope :
        (now ttl : ℤ) (x : QuoteError) (o : Option (Envelope Raw))
        → stale_quote hash decode encode x (as_hit now ttl o)
          ≡ as_stale x (quote_in (envelope_view o))
    stale_quote-envelope now ttl x none = refl
    stale_quote-envelope now ttl x (some e) = as_stale-timed x e.stored_at (decode e.payload)

    pub stale_quote-view :
        (c : FileCache Raw) (now ttl : ℤ) (x : QuoteError) (key : List ℕ)
        → stale_quote hash decode encode x (load hash now ttl key c)
          ≡ as_stale x (quote_in (view c key))
    unfolding load
    stale_quote-view c now ttl x key = elim (Bool-cases (str_eq c.dir "")) [
      | inl e ↦ rw e refl
      | inr e ↦ rw e (stale_quote-envelope now ttl x (envelope_at hash key c))
    ]

    pub fresh_quote-view :
        (c : FileCache Raw) (now ttl : ℤ) (key : List ℕ)
        → fresh_quote hash decode encode (load hash now ttl key c) ≡ fresh_in now ttl (view c key)
    unfolding load
    fresh_quote-view c now ttl key = elim (Bool-cases (str_eq c.dir "")) [
      | inl e ↦ rw e refl
      | inr e ↦ rw e (fresh_quote-envelope now ttl (envelope_at hash key c))
    ]
