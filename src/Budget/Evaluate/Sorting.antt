-- ===== src/Budget/Evaluate/Sorting.antt =====
-- `sortSlice` sorts.
use slo_sentinel.Prelude.{◌≡◌, inl, inr, true, false, List, [], ◌∷◌, ◌++◌, Bool-cases}
use mathlib.Core.List.{Perm, perm_middle}
use mathlib.Core.List.Perm
use slo_sentinel.Prelude.Float.{Float, IsOrdered}
use slo_sentinel.Budget.Evaluate.{sink, sort_loop, sort_slice_down}

module _ ⦃fl : Float⦄ where
  open fl use {F, less}

  -- No element is less than a later one: the order from the end of a sorted slice.
  abbrev pub NoneLess : F → List F → Type 0
  NoneLess x [] = Unit {0}
  NoneLess x (y ∷ ys) = (less x y ≡ false) × NoneLess x ys

  abbrev pub IsSortedDown : List F → Type 0
  IsSortedDown [] = Unit {0}
  IsSortedDown (x ∷ xs) = NoneLess x xs × IsSortedDown xs

  sink-perm : (x : F) (ys : List F) → Perm (sink x ys) (x ∷ ys)
  unfolding sink
  sink-perm x [] = Perm.refl _
  sink-perm x (y ∷ ys) = elim (Bool-cases (less x y)) [
    | inl e ↦ rw e (Perm.trans (Perm.cons y (sink-perm x ys)) (Perm.swap x y ys))
    | inr e ↦ rw e (Perm.refl _)
  ]

  sort_loop-perm : (sorted xs : List F) → Perm (sort_loop sorted xs) (xs ++ sorted)
  unfolding sort_loop
  sort_loop-perm sorted [] = Perm.refl _
  sort_loop-perm sorted (x ∷ xs) =
      Perm.trans (sort_loop-perm (sink x sorted) xs)
        (Perm.trans (Perm.append (Perm.refl xs) (sink-perm x sorted)) (perm_middle xs sorted))

  module _ (laws : IsOrdered fl (λ _. Unit {0})) where
    open laws use {irrefl, trans, cotrans}

    NoneLess-mono : (x y : F) (ys : List F) → less x y ≡ false → NoneLess y ys → NoneLess x ys
    NoneLess-mono x y [] h n = tt
    NoneLess-mono x y (z ∷ ys) h n = (cotrans x y z tt tt tt h n.0, NoneLess-mono x y ys h n.1)

    sink-NoneLess :
        (z x : F) (ys : List F) → less z x ≡ false → NoneLess z ys → NoneLess z (sink x ys)
    unfolding sink
    sink-NoneLess z x [] h n = (h, tt)
    sink-NoneLess z x (y ∷ ys) h n = elim (Bool-cases (less x y)) [
      | inl e ↦ rw e (n.0, sink-NoneLess z x ys h n.1)
      | inr e ↦ rw e (h, n)
    ]

    less_asym : (x y : F) → less x y ≡ true → less y x ≡ false
    less_asym x y h = elim (Bool-cases (less y x)) [
      | inl e ↦ cc (trans x y x h e, irrefl x)
      | inr e ↦ e
    ]

    sink-IsSortedDown : (x : F) (ys : List F) → IsSortedDown ys → IsSortedDown (sink x ys)
    unfolding sink
    sink-IsSortedDown x [] s = (tt, tt)
    sink-IsSortedDown x (y ∷ ys) s = elim (Bool-cases (less x y)) [
      | inl e ↦ rw e (sink-NoneLess y x ys (less_asym x y e) s.0, sink-IsSortedDown x ys s.1)
      | inr e ↦ rw e ((e, NoneLess-mono x y ys e s.0), s)
    ]

    sort_loop-IsSortedDown :
        (sorted xs : List F) → IsSortedDown sorted → IsSortedDown (sort_loop sorted xs)
    unfolding sort_loop
    sort_loop-IsSortedDown sorted [] s = s
    sort_loop-IsSortedDown sorted (x ∷ xs) s =
        sort_loop-IsSortedDown (sink x sorted) xs (sink-IsSortedDown x sorted s)

    -- Where `<` is the order of numbers that are not NaN, the slice is sorted and holds the same
    -- elements.
    pub sort_slice_down-IsSortedDown :
        (xs : List F) → IsSortedDown (sort_slice_down xs) × Perm (sort_slice_down xs) (xs ++ [])
    unfolding sort_slice_down
    sort_slice_down-IsSortedDown xs = (sort_loop-IsSortedDown [] xs tt, sort_loop-perm [] xs)
