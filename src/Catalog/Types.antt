-- ===== src/Catalog/Types.antt =====
-- internal/catalog/types.go: rules, groups and the catalog.
use slo_sentinel.Prelude.{
  String, ◌≡◌, refl, sym, ap, ◌∙◌, inl, inr, Bool, true, false, ◌&&◌, ◌||◌, not, none, some, List,
  [], ◌∷◌, ◌++◌, arith, str_eq, if◌then◌else◌, Bool-cases,
}
use mathlib.Core.Path.{ap₂}
use slo_sentinel.Prelude.Int.{ℤ}
use slo_sentinel.Prelude.Dict.{Dict, lookup}
use slo_sentinel.Prelude.Float.{Float}
use slo_sentinel.Promdur.{parse}

-- `none_kind` is KindNone, the empty text.
pub data Kind : Type 0 where
  budget capacity waste none_kind : Kind

abbrev pub kind_eq : Kind → Kind → Bool
kind_eq budget budget = true
kind_eq capacity capacity = true
kind_eq waste waste = true
kind_eq none_kind none_kind = true
kind_eq _ _ = false

abbrev pub kind_name : Kind → String
kind_name budget = "budget"
kind_name capacity = "capacity"
kind_name waste = "waste"
kind_name none_kind = ""

pub record Rule : Type 0 where
  pub record_name : String
  pub alert : String
  pub expr : String
  pub for_time : ℤ
  pub for_set : Bool
  pub labels : Dict String
  pub annotations : Dict String
  pub kind : Kind
  pub source_file : String

pub record Group : Type 0 where
  pub name : String
  pub rules : List Rule

pub record Catalog : Type 0 where
  pub groups : List Group
  pub version : String

-- `m[key]`, the empty text where the key is missing.
abbrev pub text_at : String → Dict String → String
text_at key m = elim (lookup key m) [ none ↦ "" | some v ↦ v ]

-- `ID`.
pub rule_id : Rule → String
rule_id r =
    let label = text_at "sentinel_sensor" r.labels in
    let note = text_at "sentinel_sensor" r.annotations in
    if not (str_eq label "")
    then label
    else if not (str_eq note "")
    then note
    else if not (str_eq r.record_name "")
    then r.record_name
    else r.alert

pub rules_in : Kind → List Rule → List Rule
rules_in k [] = []
rules_in k (r ∷ rs) = let rest = rules_in k rs in if kind_eq r.kind k then r ∷ rest else rest

pub rules_in_groups : Kind → List Group → List Rule
rules_in_groups k [] = []
rules_in_groups k (g ∷ gs) = rules_in k g.rules ++ rules_in_groups k gs

pub rules_of_kind : Kind → Catalog → List Rule
rules_of_kind k c = rules_in_groups k c.groups

-- The rules in `filterCatalog` of internal/waste/k8s.go.
abbrev pub in_scope : String → Rule → Bool
in_scope scope r =
    kind_eq r.kind waste && (str_eq (text_at "scope" r.labels) scope || str_eq scope "")

pub scoped_rules : String → List Rule → List Rule
scoped_rules scope [] = []
scoped_rules scope (r ∷ rs) =
    let rest = scoped_rules scope rs in if in_scope scope r then r ∷ rest else rest

abbrev pub add_group : String → List Rule → List Group → List Group
add_group name [] gs = gs
add_group name (r ∷ rs) gs = record { name = name; rules = r ∷ rs } ∷ gs

pub scoped_groups : String → List Group → List Group
scoped_groups scope [] = []
scoped_groups scope (g ∷ gs) =
    add_group g.name (scoped_rules scope g.rules) (scoped_groups scope gs)

pub filter_catalog : Catalog → String → Catalog
filter_catalog cat scope = record { groups = scoped_groups scope cat.groups; version = cat.version }

rules_in-scoped_rules :
    (scope : String) (rs : List Rule)
    → rules_in waste (scoped_rules scope rs) ≡ scoped_rules scope (rules_in waste rs)
unfolding rules_in scoped_rules
rules_in-scoped_rules scope [] = refl
rules_in-scoped_rules scope (r ∷ rs) = ground (arith, rules_in-scoped_rules scope rs)

scoped_rules-append :
    (scope : String) (xs ys : List Rule)
    → scoped_rules scope (xs ++ ys) ≡ scoped_rules scope xs ++ scoped_rules scope ys
unfolding scoped_rules
scoped_rules-append scope [] ys = refl
scoped_rules-append scope (x ∷ xs) ys = elim (Bool-cases (in_scope scope x)) [
  | inl e ↦ rw e (ap (◌∷◌ x) (scoped_rules-append scope xs ys))
  | inr e ↦ rw e (scoped_rules-append scope xs ys)
]

add_group-rules :
    (name : String) (rs : List Rule) (gs : List Group)
    → rules_in_groups waste (add_group name rs gs) ≡ rules_in waste rs ++ rules_in_groups waste gs
unfolding rules_in_groups rules_in
add_group-rules name [] gs = refl
add_group-rules name (r ∷ rs) gs = refl

rules_in_groups-scoped :
    (scope : String) (gs : List Group)
    → rules_in_groups waste (scoped_groups scope gs) ≡ scoped_rules scope (rules_in_groups waste gs)
unfolding rules_in_groups scoped_groups scoped_rules
rules_in_groups-scoped scope [] = refl
rules_in_groups-scoped scope (g ∷ gs) =
    add_group-rules g.name (scoped_rules scope g.rules) (scoped_groups scope gs)
    ∙ ap₂ ◌++◌ (rules_in-scoped_rules scope g.rules) (rules_in_groups-scoped scope gs)
    ∙ sym (scoped_rules-append scope (rules_in waste g.rules) (rules_in_groups waste gs))

-- The waste rules of a filtered catalog are the waste rules of the whole one that are in scope, in
-- their order, although the filter drops the groups that it empties.
pub rules_of_kind-filter_catalog :
    (cat : Catalog) (scope : String)
    → rules_of_kind waste (filter_catalog cat scope) ≡ scoped_rules scope (rules_of_kind waste cat)
unfolding rules_of_kind filter_catalog
rules_of_kind-filter_catalog cat scope = rules_in_groups-scoped scope cat.groups

module _ ⦃fl : Float⦄ where
  -- `NotifyEvery`.
  pub notify_every : Rule → ℤ
  notify_every r = parse (text_at "notify_every" r.labels)
