-- ===== src/Prelude/Dict.antt =====
-- A Go map with string keys, as an association list; `update` writes, `remove` is `delete`.

use slo_sentinel.Prelude.{
  String, ◌≡◌, refl, List, [], ◌∷◌, Option, none, some, arith, if◌then◌else◌, str_eq, eq_iff,
}

abbrev pub Dict {ℓ} : Type ℓ → Type ℓ
Dict V = List (String × V)

module _ {ℓ} {V : Type ℓ} where
  unfoldable pub lookup : String → Dict V → Option V
  lookup k [] = none
  lookup k ((j, v) ∷ m) = if str_eq j k then some v else lookup k m

  unfoldable pub update : String → V → Dict V → Dict V
  update k v [] = (k, v) ∷ []
  update k v ((j, w) ∷ m) = if str_eq j k then (k, v) ∷ m else (j, w) ∷ update k v m

  pub remove : String → Dict V → Dict V
  remove k [] = []
  remove k ((j, w) ∷ m) = if str_eq j k then remove k m else (j, w) ∷ remove k m

  pub lookup-update :
      (k j : String) (v : V) (m : Dict V)
      → lookup j (update k v m) ≡ (if str_eq k j then some v else lookup j m)
  unfolding lookup update
  lookup-update k j v [] = refl
  lookup-update k j v ((i, w) ∷ m) =
      ground (arith, eq_iff k j, eq_iff i k, eq_iff i j, lookup-update k j v m)

  pub lookup-remove :
      (k j : String) (m : Dict V)
      → lookup j (remove k m) ≡ (if str_eq k j then none else lookup j m)
  unfolding lookup remove
  lookup-remove k j [] = ground arith
  lookup-remove k j ((i, w) ∷ m) =
      ground (arith, eq_iff k j, eq_iff i k, eq_iff i j, lookup-remove k j m)

  pub lookup-update_self : (k : String) (v : V) (m : Dict V) → lookup k (update k v m) ≡ some v
  lookup-update_self k v m = ground (arith, lookup-update k k v m, eq_iff k k)
