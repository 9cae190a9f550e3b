-- ===== src/Catalog/Load.antt =====
-- internal/catalog/loader.go: loading a directory of rule files, one bad file at a time.
use slo_sentinel.Prelude.{
  String, ◌≡◌, refl, sym, ◌∙◌, inl, inr, Bool, ◌&&◌, not, List, [], ◌∷◌, ◌++◌, str_eq,
  if◌then◌else◌, Bool-cases, Result, ok, err,
}
use slo_sentinel.Prelude.Dict.{Dict}
use slo_sentinel.Prelude.Float.{Float}
use slo_sentinel.Promdur.{parse}
use slo_sentinel.Catalog.Types.{none_kind, Rule, Group, Catalog}
use slo_sentinel.Catalog.Classify.{classify}
use mathlib.Core.List.{append_assoc, append-nil}

pub record RuleYaml : Type 0 where
  pub record_name : String
  pub alert : String
  pub expr : String
  pub for_text : String
  pub labels : Dict String
  pub annotations : Dict String

pub record GroupYaml : Type 0 where
  pub name : String
  pub rules : List RuleYaml

pub record Quarantine : Type 0 where
  pub path : String
  pub reason : String

-- A file that the walk visits: its path, whether its extension is .yaml or .yml, what promtool
-- says of it ("" if it passes or promtool is not installed), and its decoded content.
pub record RuleFile : Type 0 where
  pub path : String
  pub is_yaml : Bool
  pub verdict : String
  pub content : Result String (List GroupYaml)

module _ ⦃fl : Float⦄ where
  abbrev pub unclassified : String → RuleYaml → Rule
  unclassified path r = record {
    record_name = r.record_name;
    alert = r.alert;
    expr = r.expr;
    for_time = parse r.for_text;
    for_set = not (str_eq r.for_text "");
    labels = r.labels;
    annotations = r.annotations;
    kind = none_kind;
    source_file = path;
  }

  -- The rules of one group; a rule that is neither a record nor an alert is skipped.
  pub parse_rules : String → List RuleYaml → List Rule
  parse_rules path [] = []
  parse_rules path (r ∷ rs) =
      let rest = parse_rules path rs in
      let rule = unclassified path r in
      if str_eq r.record_name "" && str_eq r.alert ""
      then rest
      else record rule { kind = classify rule } ∷ rest

  pub parse_groups : String → List GroupYaml → List Group
  parse_groups path [] = []
  parse_groups path (g ∷ gs) =
      record { name = g.name; rules = parse_rules path g.rules } ∷ parse_groups path gs

  abbrev pub Loaded : Type 0
  Loaded = record { groups : List Group; quarantined : List Quarantine }

  abbrev pub quarantine : RuleFile → String → Loaded → Loaded
  quarantine f reason l = record {
    groups = l.groups;
    quarantined = l.quarantined ++ record { path = f.path; reason = reason } ∷ [];
  }

  abbrev pub parsed : RuleFile → Result String (List GroupYaml) → Loaded → Loaded
  parsed f (ok gs) l = record {
    groups = l.groups ++ parse_groups f.path gs;
    quarantined = l.quarantined;
  }
  parsed f (err e) l = quarantine f e l

  -- What the walk of `Load` does with one file.
  pub visit : RuleFile → Loaded → Loaded
  visit f l =
      if not f.is_yaml
      then l
      else if not (str_eq f.verdict "")
      then quarantine f f.verdict l
      else parsed f f.content l

  pub walk : List RuleFile → Loaded → Loaded
  walk [] l = l
  walk (f ∷ fs) l = walk fs (visit f l)

  -- `Load`, of a directory that exists.
  pub load_catalog : List RuleFile → String → Catalog × List Quarantine
  load_catalog files version =
      let l = walk files (record { groups = []; quarantined = [] }) in
      (record { groups = l.groups; version = version }, l.quarantined)

  -- One file on its own.
  abbrev pub groups_of_content : String → Result String (List GroupYaml) → List Group
  groups_of_content path (ok gs) = parse_groups path gs
  groups_of_content path (err e) = []

  abbrev pub fault_of_content : String → Result String (List GroupYaml) → List Quarantine
  fault_of_content path (ok gs) = []
  fault_of_content path (err e) = record { path = path; reason = e } ∷ []

  abbrev pub groups_of : RuleFile → List Group
  groups_of f = if f.is_yaml && str_eq f.verdict "" then groups_of_content f.path f.content else []

  abbrev pub faults_of : RuleFile → List Quarantine
  faults_of f =
      if not f.is_yaml
      then []
      else if str_eq f.verdict ""
      then fault_of_content f.path f.content
      else record { path = f.path; reason = f.verdict } ∷ []

  abbrev pub all_groups : List RuleFile → List Group
  all_groups [] = []
  all_groups (f ∷ fs) = groups_of f ++ all_groups fs

  abbrev pub all_faults : List RuleFile → List Quarantine
  all_faults [] = []
  all_faults (f ∷ fs) = faults_of f ++ all_faults fs

  visit-content :
      (f : RuleFile) (c : Result String (List GroupYaml)) (l : Loaded)
      → ((parsed f c l).groups ≡ l.groups ++ groups_of_content f.path c)
        × ((parsed f c l).quarantined ≡ l.quarantined ++ fault_of_content f.path c)
  visit-content f (ok gs) l = (refl, sym (append-nil _))
  visit-content f (err e) l = (sym (append-nil _), refl)

  visit_lem :
      (f : RuleFile) (l : Loaded)
      → ((visit f l).groups ≡ l.groups ++ groups_of f)
        × ((visit f l).quarantined ≡ l.quarantined ++ faults_of f)
  unfolding visit
  visit_lem f l = elim (Bool-cases f.is_yaml) [
    | inl y ↦ elim (Bool-cases (str_eq f.verdict "")) [
      | inl passes ↦ rw (y, passes) (visit-content f f.content l)
      | inr fails ↦ rw (y, fails) (sym (append-nil _), refl)
    ]
    | inr n ↦ rw n (sym (append-nil _), sym (append-nil _))
  ]

  walk_lem :
      (fs : List RuleFile) (l : Loaded)
      → ((walk fs l).groups ≡ l.groups ++ all_groups fs)
        × ((walk fs l).quarantined ≡ l.quarantined ++ all_faults fs)
  unfolding walk
  walk_lem [] l = (sym (append-nil _), sym (append-nil _))
  walk_lem (f ∷ fs) l =
      let (g, q) = walk_lem fs (visit f l) in
      let (g', q') = visit_lem f l in
      (
        g ∙ rw g' (append_assoc l.groups (groups_of f) (all_groups fs)),
        q ∙ rw q' (append_assoc l.quarantined (faults_of f) (all_faults fs)),
      )

  -- Files do not touch one another. The groups that `Load` returns are those of the YAML files that
  -- promtool passes and that decode, each read on its own, in the order of the walk; the files that
  -- it reports are exactly the other YAML files, each with promtool's words or its decoding error.
  pub load_catalog_lem :
      (files : List RuleFile) (version : String)
      → ((load_catalog files version).0.groups ≡ all_groups files)
        × ((load_catalog files version).1 ≡ all_faults files)
  unfolding load_catalog
  load_catalog_lem files version = walk_lem files (record { groups = []; quarantined = [] })
