-- ===== src/Catalog/Auto/Labels.antt =====
-- Labelling a rule: it is labelled once, and read back as labelled.
use slo_sentinel.Prelude.{
  ℕ, String, ◌≡◌, refl, sym, subst, inl, inr, Option, none, some, [], ◌∷◌, ◌++◌, arith,
  Option-cases,
}
use mathlib.Core.List.{append-nil, append_assoc}
use slo_sentinel.Prelude.Dict.{lookup}
use slo_sentinel.Prelude.Float.{Float}
use slo_sentinel.Catalog.Types.{Kind, budget, waste, none_kind, kind_name}
use slo_sentinel.Catalog.Auto.{
  mapping_node, Node, Nodes, node, nil, cons, value_of, find_value, map_value, entries_of,
  map_entries, append_nodes, Patterns, suggest_kind, scalar, label_nodes, add_content, change_value,
  add_label, label_if, rule_of_node, classify_rule_node,
}

-- The content of a mapping: each key has its value.
abbrev pub IsPaired : Nodes → Type 0
IsPaired nil = Unit {0}
IsPaired (cons k nil) = ⊥
IsPaired (cons k (cons v rest)) = IsPaired rest

find_value-append_nodes :
    (key : String) (xs ys : Nodes)
    → IsPaired xs
    → find_value key xs ≡ none
    → find_value key (append_nodes xs ys) ≡ find_value key ys
unfolding find_value append_nodes
find_value-append_nodes key nil ys p h = refl
find_value-append_nodes key (cons k nil) ys p h = absurd p
find_value-append_nodes key (cons k (cons v xs)) ys p h =
    ground (arith, find_value-append_nodes key xs ys p)

find_value-change_value :
    (key : String) (f : Node → Node) (xs : Nodes) (v : Node)
    → find_value key xs ≡ some v
    → find_value key (change_value key f xs) ≡ some (f v)
unfolding find_value change_value
find_value-change_value key f nil v h = cc
find_value-change_value key f (cons k nil) v h = cc
find_value-change_value key f (cons k (cons w xs)) v h =
    ground (arith, find_value-change_value key f xs v)

entries_of-append_nodes :
    (xs ys : Nodes) → IsPaired xs → entries_of (append_nodes xs ys) ≡ entries_of ys ++ entries_of xs
unfolding entries_of append_nodes
entries_of-append_nodes nil ys p = sym (append-nil (entries_of ys))
entries_of-append_nodes (cons k nil) ys p = absurd p
entries_of-append_nodes (cons k (cons v xs)) ys p =
    rw (entries_of-append_nodes xs ys p)
      (append_assoc (entries_of ys) (entries_of xs) ((value_of k, value_of v) ∷ []))

lookup_label :
    (kind : Kind) (xs : Nodes)
    → IsPaired xs
    → lookup "sentinel_kind" (entries_of (append_nodes xs (label_nodes kind)))
      ≡ some (kind_name kind)
unfolding entries_of lookup
lookup_label kind xs p = rw (entries_of-append_nodes xs (label_nodes kind) p) refl

-- The labels node that a rule may have: none, or a mapping whose keys have values.
abbrev pub IsLabels : Option Node → Type 0
IsLabels none = Unit {0}
IsLabels (some (node k v c)) = (k ≡ mapping_node) × IsPaired c

abbrev pub label_read : Node → Option String
label_read rule = lookup "sentinel_kind" (map_entries (map_value rule "labels"))

map_entries-some :
    (kind : Kind) (l : Node)
    → IsLabels (some l)
    → lookup "sentinel_kind" (map_entries (some (add_content (label_nodes kind) l)))
      ≡ some (kind_name kind)
map_entries-some kind (node k v c) (e, p) =
    subst
      (λ j.
        lookup "sentinel_kind" (map_entries (some (add_content (label_nodes kind) (node j v c))))
        ≡ some (kind_name kind))
      (sym e) (lookup_label kind c p)

label_read-add_label :
    (kind : Kind) (v : String) (c : Nodes) (l : Option Node)
    → IsPaired c
    → find_value "labels" c ≡ l
    → IsLabels l
    → label_read (add_label kind l (node mapping_node v c)) ≡ some (kind_name kind)
unfolding find_value map_value add_label append_nodes
label_read-add_label kind v c none p e ok_labels =
    rw
      (find_value-append_nodes "labels" c
        (cons (scalar "labels") (cons (node mapping_node "" (label_nodes kind)) nil)) p e)
      (lookup_label kind nil tt)
label_read-add_label kind v c (some l) p e ok_labels =
    rw (find_value-change_value "labels" (add_content (label_nodes kind)) c l e)
      (map_entries-some kind l ok_labels)

-- The label that the rule of a suggestion gets; no suggestion leaves the rule alone.
abbrev pub IsLabelled : Kind → Node → Node × ℕ → Type 0
IsLabelled none_kind rule (after, n) = (after ≡ rule) × (n ≡ 0)
IsLabelled budget rule (after, n) = (label_read after ≡ some "budget") × (n ≡ 1)
IsLabelled Kind.capacity rule (after, n) = (label_read after ≡ some "capacity") × (n ≡ 1)
IsLabelled waste rule (after, n) = (label_read after ≡ some "waste") × (n ≡ 1)

label_if-IsLabelled :
    (kind : Kind) (v : String) (c : Nodes)
    → IsPaired c
    → IsLabels (find_value "labels" c)
    → IsLabelled kind (node mapping_node v c) (label_if kind (node mapping_node v c))
unfolding map_value
label_if-IsLabelled none_kind v c p l = (refl, refl)
label_if-IsLabelled budget v c p l =
    (label_read-add_label budget v c (find_value "labels" c) p refl l, refl)
label_if-IsLabelled Kind.capacity v c p l =
    (label_read-add_label Kind.capacity v c (find_value "labels" c) p refl l, refl)
label_if-IsLabelled waste v c p l =
    (label_read-add_label waste v c (find_value "labels" c) p refl l, refl)

classify_again :
    ⦃fl : Float⦄ (p : Patterns) (rule : Node) (text : String)
    → label_read rule ≡ some text
    → classify_rule_node p rule ≡ (rule, 0)
unfolding rule_of_node classify_rule_node
classify_again p rule text h = rw h refl

-- What classifying does to a rule with that label, for the kind that is suggested.
abbrev pub IsOutcome : Option String → Kind → Node → Node × ℕ → Type 0
IsOutcome none kind rule result = IsLabelled kind rule result
IsOutcome (some text) kind rule result = result ≡ (rule, 0)

module _ ⦃fl : Float⦄ (p : Patterns) where
  IsStable : Node → Type 0
  IsStable rule =
      classify_rule_node p (classify_rule_node p rule).0 ≡ ((classify_rule_node p rule).0, 0)

  label_if-IsStable :
      (kind : Kind) (rule : Node)
      → classify_rule_node p rule ≡ label_if kind rule
      → IsLabelled kind rule (label_if kind rule)
      → IsStable rule
  unfolding IsStable
  label_if-IsStable none_kind rule e l = rw e e
  label_if-IsStable budget rule e l = rw e (classify_again p (label_if budget rule).0 "budget" l.0)
  label_if-IsStable Kind.capacity rule e l =
      rw e (classify_again p (label_if Kind.capacity rule).0 "capacity" l.0)
  label_if-IsStable waste rule e l = rw e (classify_again p (label_if waste rule).0 "waste" l.0)

  unlabelled :
      (rule : Node)
      → label_read rule ≡ none
      → classify_rule_node p rule ≡ label_if (suggest_kind p (rule_of_node p rule)) rule
  unfolding rule_of_node classify_rule_node
  unlabelled rule h = rw h refl

  -- A rule whose content has a value for each key, and whose `labels`, if it has any, are such a
  -- mapping: where it has a `sentinel_kind` label it is left as it is; else, where a kind is
  -- suggested, it is counted and then read back with that kind as its label, and where none is,
  -- it is left as it is. To classify the result once more changes and counts nothing.
  pub classify_rule_node_idem :
      (v : String) (c : Nodes)
      → IsPaired c
      → IsLabels (find_value "labels" c)
      → IsOutcome
          (label_read (node mapping_node v c))
          (suggest_kind p (rule_of_node p (node mapping_node v c)))
          (node mapping_node v c)
          (classify_rule_node p (node mapping_node v c))
        × (classify_rule_node p (classify_rule_node p (node mapping_node v c)).0
            ≡ ((classify_rule_node p (node mapping_node v c)).0, 0))
  unfolding IsStable
  classify_rule_node_idem v c paired l =
      let rule = node mapping_node v c in
      let kind = suggest_kind p (rule_of_node p rule) in
      elim (Option-cases (label_read rule)) [
        | inl e ↦
            let at = unlabelled rule e in
            let labelled = label_if-IsLabelled kind v c paired l in
            (
              rw e (subst (λ r. IsLabelled kind rule r) (sym at) labelled),
              label_if-IsStable kind rule at labelled,
            )
        | inr (text, e) ↦ let at = classify_again p rule text e in (rw e at, rw at at)
      ]
