-- ===== src/Files.antt =====
-- The file system as the loaders see it. What it answers is the environment's.
pub mod Loaded
use slo_sentinel.Prelude.{
  ℕ, suc, String, Bool, ◌||◌, Option, none, some, List, [], ◌∷◌, ◌++◌, str_eq, if◌then◌else◌,
  Result, ok, err, ◌>>=◌,
}

pub data Stat : Type 0 where
  missing : Stat
  stat_failed : String → Stat
  directory plain_file : Stat

pub data LoadError (E : Type 0) : Type 0 where
  cannot_stat cannot_list : String → LoadError E
  cannot_read cannot_parse : String → String → LoadError E
  invalid : String → ℕ → E → LoadError E  -- a file, the index of the item in it, and its fault

pub record FileSystem : Type 0 where
  pub stat : String → Stat
  pub read_dir : String → Result String (List String)
  pub read_file : String → Result String String
  -- `filepath.Ext` and `filepath.Join`.
  pub ext : String → String
  pub join : String → String → String

-- The fault of an item, with its place.
abbrev pub at_item : {E D : Type 0} → String → ℕ → Result E D → Result (LoadError E) D
at_item path i (ok d) = ok d
at_item path i (err e) = err (invalid path i e)

module _ (fs : FileSystem) where
  abbrev pub is_yaml : String → Bool
  is_yaml name = str_eq (fs.ext name) ".yaml" || str_eq (fs.ext name) ".yml"

  pub yaml_paths : String → List String → List String
  yaml_paths dir [] = []
  yaml_paths dir (name ∷ names) =
      let rest = yaml_paths dir names in if is_yaml name then fs.join dir name ∷ rest else rest

  abbrev pub listed :
      {E : Type 0}
      → String
      → Result String (List String)
      → Result (LoadError E) (Option (List String))
  listed dir (ok names) = ok (some (yaml_paths dir names))
  listed dir (err e) = err (cannot_list e)

  -- The files to read under a directory or a single file; `none` where nothing is there.
  unfoldable pub definition_paths :
      {E : Type 0} → String → Result (LoadError E) (Option (List String))
  definition_paths path = elim (fs.stat path) [
    | missing ↦ ok none
    | stat_failed e ↦ err (cannot_stat e)
    | directory ↦ listed path (fs.read_dir path)
    | plain_file ↦ ok (some (path ∷ []))
  ]

  module _ {E D : Type 0} (decode : String → Result String (List D)) (check : D → Result E D) where
    -- The items of one file: the first that is invalid is the error.
    unfoldable pub check_items : String → ℕ → List D → Result (LoadError E) (List D)
    check_items path i [] = ok []
    check_items path i (d ∷ ds) =
        at_item path i (check d) >>= λ d'. check_items path (suc i) ds >>= λ rest. ok (d' ∷ rest)

    abbrev pub decoded : String → Result String (List D) → Result (LoadError E) (List D)
    decoded path (ok ds) = check_items path 0 ds
    decoded path (err e) = err (cannot_parse path e)

    abbrev pub read : String → Result String String → Result (LoadError E) (List D)
    read path (ok text) = decoded path (decode text)
    read path (err e) = err (cannot_read path e)

    unfoldable pub load_files : List String → Result (LoadError E) (List D)
    load_files [] = ok []
    load_files (p ∷ ps) =
        read p (fs.read_file p) >>= λ ds. load_files ps >>= λ rest. ok (ds ++ rest)

    abbrev pub load_paths : Option (List String) → Result (LoadError E) (List D)
    load_paths none = ok []
    load_paths (some ps) = load_files ps

    unfoldable pub load : String → Result (LoadError E) (List D)
    load path = definition_paths path >>= load_paths
