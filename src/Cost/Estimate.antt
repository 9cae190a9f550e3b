-- ===== src/Cost/Estimate.antt =====
-- internal/cost/estimate.go: usage times unit price, line by line, and the comparison with the bill.
pub mod Totals
use slo_sentinel.Prelude.{
  ℕ, suc, ◌+◌, ◌-◌, String, Bool, false, ◌&&◌, ◌||◌, not, Option, none, some, List, [], ◌∷◌, ◌++◌,
  str_eq, if◌then◌else◌, Result, ok, err, ◌>>◌, fail_if,
}
use slo_sentinel.Prelude.Float.{Float}
use slo_sentinel.Budget.Engine.{nought}
use slo_sentinel.Pricing.Types.{Attrs, Quote}

pub record UsageTemplate : Type 0 where
  pub sensor : String
  pub service : String
  pub family : String
  pub attrs : Attrs

pub record UsageLine (F : Type 0) : Type 0 where
  pub template : UsageTemplate
  pub quantity : F

pub record EstimatedLine (F : Type 0) : Type 0 where
  pub service : String
  pub sensor : String
  pub quantity : F
  pub unit_price : F
  pub currency : String
  pub unit : String
  pub cost : F
  pub stale : Bool
  pub failure : String

pub record EstimateResult (F : Type 0) : Type 0 where
  pub lines : List (EstimatedLine F)
  pub total : F
  pub currency : String
  pub stale : Bool

-- How the cost map is read: the file is missing, does not open, does not decode, or has templates.
pub data CostMapFile : Type 0 where
  no_file : CostMapFile
  unreadable undecodable : CostMapFile
  templates : List UsageTemplate → CostMapFile

pub data CostMapError : Type 0 where
  not_read not_decoded : CostMapError
  incomplete : ℕ → CostMapError  -- the index of the template, from 0

pub check_templates : ℕ → List UsageTemplate → Result CostMapError (Unit {0})
check_templates i [] = ok tt
check_templates i (t ∷ ts) =
    fail_if (str_eq t.sensor "" || str_eq t.family "") (incomplete i) >> check_templates (suc i) ts

-- `LoadCostMap`; no file is an empty map.
pub load_cost_map : CostMapFile → Result CostMapError (List UsageTemplate)
load_cost_map no_file = ok []
load_cost_map unreadable = err not_read
load_cost_map undecodable = err not_decoded
load_cost_map (templates ts) = check_templates 0 ts >> ok ts

module _ ⦃fl : Float⦄ where
  open fl use {F, plus, minus, times, over, less, decimal}

  -- The row of a line before it has a price.
  abbrev pub row_of : UsageLine F → EstimatedLine F
  row_of ln = record {
    service = if str_eq ln.template.service "" then ln.template.sensor else ln.template.service;
    sensor = ln.template.sensor;
    quantity = ln.quantity;
    unit_price = nought;
    currency = "";
    unit = "";
    cost = nought;
    stale = false;
    failure = "";
  }

  abbrev pub priced_row : UsageLine F → Quote F → EstimatedLine F
  priced_row ln q = record {
    service = (row_of ln).service;
    sensor = ln.template.sensor;
    quantity = ln.quantity;
    unit_price = q.unit_price;
    currency = q.currency;
    unit = q.unit;
    cost = times ln.quantity q.unit_price;
    stale = q.stale;
    failure = "";
  }

  abbrev pub failed_row : UsageLine F → String → EstimatedLine F
  failed_row ln e = record (row_of ln) { failure = e }

  abbrev pub row : UsageLine F → Result String (Quote F) → EstimatedLine F
  row ln (ok q) = priced_row ln q
  row ln (err e) = failed_row ln e

  -- The currency of the report after one more priced line.
  abbrev pub merge_currency : String → String → String
  merge_currency have new =
      if str_eq have ""
      then new
      else if not (str_eq have new) && not (str_eq have "mixed")
      then "mixed"
      else have

  abbrev pub add_line : UsageLine F → Result String (Quote F) → EstimateResult F → EstimateResult F
  add_line ln (err e) res = record res { lines = res.lines ++ failed_row ln e ∷ [] }
  add_line ln (ok q) res = record {
    lines = res.lines ++ priced_row ln q ∷ [];
    total = plus res.total (times ln.quantity q.unit_price);
    stale = res.stale || q.stale;
    currency = merge_currency res.currency q.currency;
  }

  -- The loop of `EstimateSpend`; `price` is the pricer's `Quote`.
  pub estimate_loop :
      (String → Attrs → Result String (Quote F))
      → List (UsageLine F)
      → EstimateResult F
      → EstimateResult F
  estimate_loop price [] res = res
  estimate_loop price (ln ∷ lns) res =
      estimate_loop price lns (add_line ln (price ln.template.family ln.template.attrs) res)

  abbrev pub empty_result : EstimateResult F
  empty_result = record { lines = []; total = nought; currency = ""; stale = false }

  -- `EstimateSpend`.
  pub estimate_spend :
      (String → Attrs → Result String (Quote F)) → List (UsageLine F) → EstimateResult F
  estimate_spend price lines = estimate_loop price lines empty_result

  pub record ActualVsEstimate : Type 0 where
    pub actual_mtd : F
    pub estimate : F
    pub delta : F
    pub delta_pct : Option F

  abbrev pub estimate_of : Option (EstimateResult F) → F
  estimate_of none = nought
  estimate_of (some est) = est.total

  -- `CompareActualVsEstimate`.
  pub compare_actual_vs_estimate : F → Option (EstimateResult F) → ActualVsEstimate
  compare_actual_vs_estimate actual_mtd est =
      let estimate = estimate_of est in
      let delta = minus actual_mtd estimate in
      record {
        actual_mtd = actual_mtd;
        estimate = estimate;
        delta = delta;
        delta_pct =
            if less (decimal 1 9) estimate
            then some (times (over delta estimate) (decimal 100 0))
            else none;
      }
