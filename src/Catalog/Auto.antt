-- ===== src/Catalog/Auto.antt =====
-- internal/catalog/autoclassify.go: adding `sentinel_kind` labels to the rules of a file.
pub mod Labels
use slo_sentinel.Prelude.{
  ℕ, String, Bool, true, false, ◌&&◌, ◌||◌, not, Option, none, some, [], ◌∷◌, ◌++◌, arith, str_eq,
  if◌then◌else◌,
}
use slo_sentinel.Prelude.Int.{ℤ, pos, ltb_ℤ}
use slo_sentinel.Prelude.Dict.{Dict, lookup}
use slo_sentinel.Prelude.Text.{codes, has_prefix}
use slo_sentinel.Prelude.Float.{Float}
use slo_sentinel.Promdur.{parse}
use slo_sentinel.Catalog.Types.{Kind, budget, waste, none_kind, kind_name, Rule, text_at}

pub data NodeKind : Type 0 where
  scalar_node mapping_node sequence_node other_node : NodeKind

-- A `yaml.Node`: its kind, its value and its content. The content of a mapping holds keys and
-- values in turn.
mutual
  pub data Node : Type 0 where
    node : NodeKind → String → Nodes → Node

  pub data Nodes : Type 0 where
    nil : Nodes
    cons : Node → Nodes → Nodes

abbrev pub kind_of : Node → NodeKind
kind_of (node k v c) = k

abbrev pub value_of : Node → String
value_of (node k v c) = v

abbrev pub content_of : Node → Nodes
content_of (node k v c) = c

abbrev pub is_mapping : NodeKind → Bool
is_mapping mapping_node = true
is_mapping _ = false

-- The loop of `mapValue`; a key without a value at the end is not read.
unfoldable pub find_value : String → Nodes → Option Node
find_value key nil = none
find_value key (cons k nil) = none
find_value key (cons k (cons v rest)) =
    if str_eq (value_of k) key then some v else find_value key rest

pub map_value : Node → String → Option Node
map_value (node k v c) key = if is_mapping k then find_value key c else none

abbrev pub scalar_text : Option Node → String
scalar_text none = ""
scalar_text (some (node scalar_node v c)) = v
scalar_text (some (node mapping_node v c)) = ""
scalar_text (some (node sequence_node v c)) = ""
scalar_text (some (node other_node v c)) = ""

pub scalar_of : Node → String → String
scalar_of m key = scalar_text (map_value m key)

-- The entries of a mapping as a map; a later entry of a key hides an earlier one.
pub entries_of : Nodes → Dict String
entries_of nil = []
entries_of (cons k nil) = []
entries_of (cons k (cons v rest)) = entries_of rest ++ (value_of k, value_of v) ∷ []

abbrev pub map_entries : Option Node → Dict String
map_entries none = []
map_entries (some (node mapping_node v c)) = entries_of c
map_entries (some (node scalar_node v c)) = []
map_entries (some (node sequence_node v c)) = []
map_entries (some (node other_node v c)) = []

pub append_nodes : Nodes → Nodes → Nodes
append_nodes nil ys = ys
append_nodes (cons x xs) ys = cons x (append_nodes xs ys)

-- The regular expressions of the file, and the removal of quoted texts, are the library's.
pub record Patterns : Type 0 where
  pub sloth_ref : String → Bool
  pub waste_anno : String → Bool
  pub long_window : String → Bool
  pub day_window : String → Bool
  pub waste_metric : String → Bool
  pub without_quotes : String → String
  pub join : String → String → String

abbrev pub has_sloth_label : Dict String → Bool
has_sloth_label [] = false
has_sloth_label ((k, v) ∷ m) = has_prefix (codes k) (codes "sloth_") || has_sloth_label m

-- 7 days.
abbrev pub week : ℤ
week = pos 604800000000000

-- `SuggestKind`, without its reason.
pub suggest_kind : Patterns → Rule → Kind
suggest_kind p r =
    if p.sloth_ref r.expr
    then budget
    else if has_sloth_label r.labels
    then budget
    else if p.waste_anno
        (p.join (text_at "summary" r.annotations) (text_at "description" r.annotations))
    then waste
    else if p.long_window r.expr && p.day_window r.expr
    then waste
    else if p.waste_metric (p.without_quotes r.expr)
    then waste
    else if r.for_set && not (ltb_ℤ r.for_time week)
    then waste
    else none_kind

abbrev pub scalar : String → Node
scalar v = node scalar_node v nil

abbrev pub label_nodes : Kind → Nodes
label_nodes k = cons (scalar "sentinel_kind") (cons (scalar (kind_name k)) nil)

abbrev pub add_content : Nodes → Node → Node
add_content extra (node k v c) = node k v (append_nodes c extra)

-- The first value of `key` in the content, changed by `f`: the code writes through the pointer
-- that `mapValue` returned.
pub change_value : String → (Node → Node) → Nodes → Nodes
change_value key f nil = nil
change_value key f (cons k nil) = cons k nil
change_value key f (cons k (cons v rest)) =
    if str_eq (value_of k) key
    then cons k (cons (f v) rest)
    else cons k (cons v (change_value key f rest))

-- The end of `classifyRuleNode`: add the label to the labels node, or make one.
pub add_label : Kind → Option Node → Node → Node
add_label kind none (node k v c) =
    node k v
      (append_nodes c (cons (scalar "labels") (cons (node mapping_node "" (label_nodes kind)) nil)))
add_label kind (some l) (node k v c) =
    node k v (change_value "labels" (add_content (label_nodes kind)) c)

abbrev pub label_if : Kind → Node → Node × ℕ
label_if none_kind rule = (rule, 0)
label_if budget rule = (add_label budget (map_value rule "labels") rule, 1)
label_if Kind.capacity rule = (add_label Kind.capacity (map_value rule "labels") rule, 1)
label_if waste rule = (add_label waste (map_value rule "labels") rule, 1)

abbrev pub is_some {ℓ} : {A : Type ℓ} → Option A → Bool
is_some none = false
is_some (some a) = true

module _ ⦃fl : Float⦄ (p : Patterns) where
  pub rule_of_node : Node → Rule
  rule_of_node rule = record {
    record_name = "";
    alert = "";
    expr = scalar_of rule "expr";
    for_time = parse (scalar_of rule "for");
    for_set = not (str_eq (scalar_of rule "for") "");
    labels = map_entries (map_value rule "labels");
    annotations = map_entries (map_value rule "annotations");
    kind = none_kind;
    source_file = "";
  }

  -- `classifyRuleNode`: the rule node, and 1 if it was changed.
  pub classify_rule_node : Node → Node × ℕ
  classify_rule_node rule =
      let r = rule_of_node rule in
      if is_some (lookup "sentinel_kind" r.labels)
      then (rule, 0)
      else label_if (suggest_kind p r) rule
