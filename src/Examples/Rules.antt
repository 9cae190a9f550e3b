-- ===== src/Examples/Rules.antt =====
-- Runs of internal/catalog, internal/promdur and internal/spec.
use slo_sentinel.Prelude.{◌≡◌, true, false, none, List, [], ◌∷◌, str_eq, length, ok, err}
use slo_sentinel.Prelude.Int.{ℤ, pos}
use slo_sentinel.Prelude.Float.{fixed}
use slo_sentinel.Promdur.RoundTrip.{Part}
use slo_sentinel.Files.{FileSystem, plain_file}
use slo_sentinel.Spec.{Slo}
use slo_sentinel.Catalog.Types.{waste, Rule}
use slo_sentinel.Catalog.Load.{RuleFile, load_catalog, all_groups, all_faults, load_catalog_lem}
use slo_sentinel.Catalog.Auto.{
  Nodes, node, nil, cons, mapping_node, scalar, Patterns, suggest_kind, rule_of_node,
  classify_rule_node,
}
use slo_sentinel.Catalog.Auto.Labels.{IsOutcome, label_read, classify_rule_node_idem}

abbrev bad_file : RuleFile
bad_file = record { path = "bad.yaml"; is_yaml = true; verdict = ""; content = err "line 3" }

abbrev good_file : RuleFile
good_file = record {
  path = "good.yaml";
  is_yaml = true;
  verdict = "";
  content = ok (record { name = "g"; rules = [] } ∷ []);
}

load_catalog_lem_example :
    ((load_catalog ⦃fl = fixed⦄ (bad_file ∷ good_file ∷ []) "v1").0.groups
      ≡ all_groups ⦃fl = fixed⦄ (bad_file ∷ good_file ∷ []))
    × ((load_catalog ⦃fl = fixed⦄ (bad_file ∷ good_file ∷ []) "v1").1
        ≡ all_faults ⦃fl = fixed⦄ (bad_file ∷ good_file ∷ []))
load_catalog_lem_example = load_catalog_lem ⦃fl = fixed⦄ (bad_file ∷ good_file ∷ []) "v1"

abbrev idle_rule : Rule
idle_rule = record {
  record_name = "";
  alert = "IdleVolume";
  expr = "up";
  for_time = pos 0;
  for_set = false;
  labels = ("scope", "prod") ∷ [];
  annotations = [];
  kind = waste;
  source_file = "good.yaml";
}

abbrev patterns : Patterns
patterns = record {
  sloth_ref = λ t. false;
  waste_anno = λ t. str_eq t "idle";
  long_window = λ t. false;
  day_window = λ t. false;
  waste_metric = λ t. false;
  without_quotes = λ t. t;
  join = λ a b. a;
}

abbrev rule_content : Nodes
rule_content = cons (scalar "alert") (
    cons (scalar "IdleVolume") (
      cons (scalar "annotations")
        (cons (node mapping_node "" (cons (scalar "summary") (cons (scalar "idle") nil))) nil)))

classify_rule_node_idem_example :
    IsOutcome
      (label_read (node mapping_node "" rule_content))
      (suggest_kind patterns
        (rule_of_node ⦃fl = fixed⦄ patterns (node mapping_node "" rule_content)))
      (node mapping_node "" rule_content)
      (classify_rule_node ⦃fl = fixed⦄ patterns (node mapping_node "" rule_content))
    × (classify_rule_node ⦃fl = fixed⦄ patterns
          (classify_rule_node ⦃fl = fixed⦄ patterns (node mapping_node "" rule_content)).0
        ≡ ((classify_rule_node ⦃fl = fixed⦄ patterns (node mapping_node "" rule_content)).0, 0))
unfolding slo_sentinel.Catalog.Auto.find_value
classify_rule_node_idem_example =
    classify_rule_node_idem ⦃fl = fixed⦄ patterns "" rule_content tt tt

-- "5m".
abbrev five_minutes : Part ⦃fl = fixed⦄
five_minutes = record {
  first = 53;
  digits = [];
  value = pos 5000000;
  unit = 109;
  length = pos 300000000000;
}

abbrev api : Slo ℤ
api = record {
  id = "api";
  service = "api";
  description = "";
  sli_query = "errors";
  objective = pos 99900000;
  window_days = pos 0;
  budget_usd = pos 0;
  thresholds = none;
}

abbrev disk_files : FileSystem
disk_files = record {
  stat = λ p. plain_file;
  read_dir = λ p. ok [];
  read_file = λ p. ok "";
  ext = λ p. ".yaml";
  join = λ a b. b;
}

abbrev one_slo : List (Slo ℤ)
one_slo = record api { window_days = pos 28 } ∷ []
