-- ===== src/Files/Loaded.antt =====
-- A load that succeeds returns checked items only.
use slo_sentinel.Prelude.{
  ℕ, suc, String, ◌≡◌, subst, Option, none, some, List, [], ◌∷◌, ◌++◌, Result, ok, err, >>=-eq-ok,
}
use slo_sentinel.Files.{
  FileSystem, at_item, definition_paths, check_items, decoded, read, load_files, load_paths, load,
}

abbrev pub All {ℓ κ} : {A : Type ℓ} → (A → Type κ) → List A → Type κ
All P [] = Unit
All P (x ∷ xs) = P x × All P xs

All-append {ℓ} :
    {A : Type ℓ} (P : A → Type 0) (xs ys : List A) → All P xs → All P ys → All P (xs ++ ys)
All-append P [] ys a b = b
All-append P (x ∷ xs) ys a b = (a.0, All-append P xs ys a.1 b)

at_item-eq-ok :
    {E D : Type 0} (path : String) (i : ℕ) (r : Result E D) {d : D}
    → at_item path i r ≡ ok d
    → r ≡ ok d
at_item-eq-ok path i (ok d) h = cc
at_item-eq-ok path i (err e) h = cc

All-eq-ok :
    {E D : Type 0} (P : D → Type 0) (xs ys : List D)
    → ◌≡◌ {A = Result E (List D)} (ok xs) (ok ys)
    → All P xs
    → All P ys
All-eq-ok P xs ys h a = let same : xs ≡ ys = cc in subst (All P) same a

module _ {E D : Type 0} (fs : FileSystem) (decode : String → Result String (List D))
    (check : D → Result E D) (P : D → Type 0) (sound : (d d' : D) → check d ≡ ok d' → P d') where
  check_items-All :
      (path : String) (i : ℕ) (ds out : List D)
      → check_items fs decode check path i ds ≡ ok out
      → All P out
  unfolding check_items
  check_items-All path i [] out h = All-eq-ok P [] out h tt
  check_items-All path i (d ∷ ds) out h =
      let (d', c, h1) = >>=-eq-ok (at_item path i (check d)) _ h in
      let (rest, r, h2) = >>=-eq-ok (check_items fs decode check path (suc i) ds) _ h1 in
      All-eq-ok P (d' ∷ rest) out h2
        (sound d d' (at_item-eq-ok path i (check d) c), check_items-All path (suc i) ds rest r)

  decoded-All :
      (path : String) (r : Result String (List D)) (out : List D)
      → decoded fs decode check path r ≡ ok out
      → All P out
  decoded-All path (ok ds) out h = check_items-All path 0 ds out h
  decoded-All path (err e) out h = cc

  read-All :
      (path : String) (r : Result String String) (out : List D)
      → read fs decode check path r ≡ ok out
      → All P out
  read-All path (ok text) out h = decoded-All path (decode text) out h
  read-All path (err e) out h = cc

  load_files-All :
      (ps : List String) (out : List D) → load_files fs decode check ps ≡ ok out → All P out
  unfolding load_files
  load_files-All [] out h = All-eq-ok P [] out h tt
  load_files-All (p ∷ ps) out h =
      let (ds, r, h1) = >>=-eq-ok (read fs decode check p (fs.read_file p)) _ h in
      let (rest, rs, h2) = >>=-eq-ok (load_files fs decode check ps) _ h1 in
      All-eq-ok P (ds ++ rest) out h2
        (All-append P ds rest (read-All p (fs.read_file p) ds r) (load_files-All ps rest rs))

  load_paths-All :
      (ps : Option (List String)) (out : List D)
      → load_paths fs decode check ps ≡ ok out
      → All P out
  load_paths-All none out h = All-eq-ok P [] out h tt
  load_paths-All (some ps) out h = load_files-All ps out h

  -- Every item that a load returns is what `check` made of an item it accepted.
  pub load-All : (path : String) (out : List D) → load fs decode check path ≡ ok out → All P out
  unfolding load
  load-All path out h =
      let (ps, _, h1) = >>=-eq-ok (definition_paths fs path) _ h in load_paths-All ps out h1
