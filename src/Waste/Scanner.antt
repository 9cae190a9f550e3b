-- ===== src/Waste/Scanner.antt =====
-- internal/waste/waste.go: the daily scan of the waste rules, and what a candidate would save.
pub mod Scan
use slo_sentinel.Prelude.{
  ◌+◌, ◌-◌, String, Bool, true, false, not, Option, none, some, List, [], ◌∷◌, ◌++◌, str_eq,
  if◌then◌else◌, Result, ok, err,
}
use slo_sentinel.Prelude.Int.{ℤ, pos, ltb_ℤ, ◌-ℤ◌}
use slo_sentinel.Prelude.Float.{Float}
use slo_sentinel.Query.{Sample, Series, Source}
use slo_sentinel.Budget.Engine.{nought, seconds}
use slo_sentinel.Catalog.Types.{waste, Rule, Catalog, text_at, rule_id, rules_of_kind, notify_every}
use slo_sentinel.Pricing.Types.{Attrs, attr, Quote}
use slo_sentinel.Waste.Tracker.{Candidate}

-- A `Candidate` with all its fields; those that `Observe` reads are a record of their own.
pub record Found (F : Type 0) : Type 0 where
  pub seen : Candidate F
  pub window : ℤ
  pub idle_days : F
  pub saving_monthly : F
  pub currency : String
  pub price_unit : String
  pub price_stale : Bool
  pub price_error : String

-- The `Pricer` of a scanner, nil or a value with its `Quote`.
pub data Pricer (F : Type 0) : Type 0 where
  no_pricer : Pricer F
  pricer : (String → Attrs → Result String (Quote F)) → Pricer F

-- What the environment does with text: JSON of attributes, and the number that `Sscanf` reads.
pub record Decoders (F : Type 0) : Type 0 where
  pub attrs_of_json : String → Option Attrs
  pub scan_float : String → Option F

module _ ⦃fl : Float⦄ where
  open fl use {F, times, over, less, decimal}

  -- `monthlyFromQuote`.
  pub monthly_from_quote : Quote F → F → F
  monthly_from_quote q qty =
      if str_eq q.unit "Hrs"
      then times (times (times q.unit_price (decimal 24 0)) (decimal 30 0)) qty
      else times q.unit_price qty

  abbrev pub positive_or_one : Option F → F
  positive_or_one none = decimal 1 0
  positive_or_one (some f) = if less nought f then f else decimal 1 0

  abbrev pub quantity : Decoders F → Attrs → F
  quantity dec attrs =
      let v = attr "quantity" attrs in
      if str_eq v "" then decimal 1 0 else positive_or_one (dec.scan_float v)

  abbrev pub with_quote : Decoders F → Attrs → Result String (Quote F) → Found F → Found F
  with_quote dec attrs (err e) c = record c { price_error = e }
  with_quote dec attrs (ok q) c =
      let saving = monthly_from_quote q (quantity dec attrs) in
      record {
        seen = record (c.seen) { wasted_cost = over saving (decimal 30 0) };
        window = c.window;
        idle_days = c.idle_days;
        saving_monthly = saving;
        currency = q.currency;
        price_unit = q.unit;
        price_stale = q.stale;
        price_error = c.price_error;
      }

  abbrev pub attrs_of : Decoders F → String → Option Attrs
  attrs_of dec raw = if str_eq raw "" then some [] else dec.attrs_of_json raw

  abbrev pub priced_with :
      (String → Attrs → Result String (Quote F))
      → Decoders F
      → String
      → Option Attrs
      → Found F
      → Found F
  priced_with ask dec family none c = record c { price_error = "sentinel_price_attrs JSON 解析失敗" }
  priced_with ask dec family (some attrs) c = with_quote dec attrs (ask family attrs) c

  -- `applyPricing`.
  pub apply_pricing : Pricer F → Decoders F → Rule → Found F → Found F
  apply_pricing no_pricer dec r c = c
  apply_pricing (pricer ask) dec r c =
      let family = text_at "sentinel_price_family" r.labels in
      if str_eq family ""
      then c
      else priced_with ask dec family (attrs_of dec (text_at "sentinel_price_attrs" r.labels)) c

  abbrev pub fourteen_days : ℤ
  fourteen_days = pos 1209600000000000

  abbrev pub window_of : Rule → ℤ
  window_of r = if ltb_ℤ (pos 0) r.for_time then r.for_time else fourteen_days

  pub all_true : List (Sample F) → Bool
  all_true [] = true
  all_true (s ∷ ss) = let rest = all_true ss in if less s.value (decimal 5 1) then false else rest

  -- The samples that count: those of the first series; a failed query and an empty answer have none.
  abbrev pub first_samples : Result String (List (Series F)) → List (Sample F)
  first_samples (err e) = []
  first_samples (ok []) = []
  first_samples (ok (s ∷ ss)) = s.samples

  -- The condition of a rule has held for its whole window.
  abbrev pub held : List (Sample F) → Bool
  held [] = false
  held (s ∷ ss) = all_true (s ∷ ss)

  abbrev pub candidate_of : Rule → Found F
  candidate_of r = record {
    seen = record {
      sensor_id = rule_id r;
      alert_name = r.alert;
      reason = text_at "summary" r.annotations;
      wasted_cost = nought;
      renotify = notify_every r;
      labels = r.labels;
    };
    window = window_of r;
    idle_days = over (over (seconds (window_of r)) (decimal 3600 0)) (decimal 24 0);
    saving_monthly = nought;
    currency = "";
    price_unit = "";
    price_stale = false;
    price_error = "";
  }

  module _ (src : Source F) (p : Pricer F) (dec : Decoders F) (now : ℤ) where
    -- The answer to the query of one rule: samples a day apart over its window.
    abbrev pub answer_to : Rule → Result String (List (Series F))
    answer_to r = src.range_query r.expr (now -ℤ window_of r) now (pos 86400000000000)

    -- One round of the loop of `Scan`.
    pub scan_rule : Rule → List (Found F) → List (Found F)
    scan_rule r out =
        if str_eq r.alert ""
        then out
        else if not (held (first_samples (answer_to r)))
        then out
        else out ++ apply_pricing p dec r (candidate_of r) ∷ []

    pub scan_loop : List Rule → List (Found F) → List (Found F)
    scan_loop [] out = out
    scan_loop (r ∷ rs) out = scan_loop rs (scan_rule r out)

    -- `Scan`, which never returns an error.
    pub scan : Catalog → List (Found F)
    scan cat = scan_loop (rules_of_kind waste cat) []
