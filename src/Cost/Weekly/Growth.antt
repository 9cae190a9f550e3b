-- ===== src/Cost/Weekly/Growth.antt =====
-- What stands in the list of the services that grow most.
use slo_sentinel.Prelude.{
  ℕ, zero, suc, ◌≤◌, ◌≡◌, refl, inl, inr, false, List, [], ◌∷◌, arith, Bool-cases, length, take,
}
use slo_sentinel.Prelude.Dict.{Dict}
use slo_sentinel.Prelude.Float.{Float}
use slo_sentinel.Cost.Weekly.{
  GrowthRow, average_at, growing, five_if_none, daily_by_service, weekly_top_growth,
}
use slo_sentinel.Cost.Forecast.{DailySpend}
use slo_sentinel.Prelude.Int.{ℤ}

-- One list is the other in another order.
pub data Reorders {A : Type 0} : List A → List A → Type 0 where
  done : Reorders [] []
  keep : {x : A} {xs ys : List A} → Reorders xs ys → Reorders (x ∷ xs) (x ∷ ys)
  exchange : {x y : A} {xs : List A} → Reorders (x ∷ y ∷ xs) (y ∷ x ∷ xs)
  chain : {xs ys zs : List A} → Reorders xs ys → Reorders ys zs → Reorders xs zs

module _ ⦃fl : Float⦄ where
  open fl use {F, minus, at_most, decimal}

  length-take_max : {A : Type 0} (n : ℕ) (xs : List A) → length (take n xs) ≤ n
  length-take_max zero xs = omega arith
  length-take_max (suc n) [] = omega arith
  length-take_max (suc n) (x ∷ xs) = omega (arith, length-take_max n xs)

  -- A row of a service whose growth counts, with its numbers.
  abbrev pub IsGrowth : Dict F → GrowthRow F → Type 0
  IsGrowth prev g =
      (g.previous_avg ≡ average_at g.service prev)
      × (g.growth ≡ minus g.recent_avg g.previous_avg)
      × (at_most g.growth (decimal 1 9) ≡ false)

  abbrev pub AllGrow : Dict F → List (GrowthRow F) → Type 0
  AllGrow prev [] = Unit {0}
  AllGrow prev (g ∷ gs) = IsGrowth prev g × AllGrow prev gs

  growing-AllGrow : (recent prev : Dict F) → AllGrow prev (growing recent prev)
  unfolding growing
  growing-AllGrow [] prev = tt
  growing-AllGrow ((svc, r) ∷ recent) prev =
      elim (Bool-cases (at_most (minus r (average_at svc prev)) (decimal 1 9))) [
        | inl e ↦ rw e (growing-AllGrow recent prev)
        | inr e ↦ rw e ((refl, refl, e), growing-AllGrow recent prev)
      ]

  AllGrow-Reorders :
      (prev : Dict F) {xs ys : List (GrowthRow F)}
      → Reorders xs ys
      → AllGrow prev ys
      → AllGrow prev xs
  AllGrow-Reorders prev done a = tt
  AllGrow-Reorders prev (keep r) (g, a) = (g, AllGrow-Reorders prev r a)
  AllGrow-Reorders prev exchange (g, (h, a)) = (h, (g, a))
  AllGrow-Reorders prev (chain r q) a = AllGrow-Reorders prev r (AllGrow-Reorders prev q a)

  AllGrow-take :
      (prev : Dict F) (n : ℕ) (xs : List (GrowthRow F)) → AllGrow prev xs → AllGrow prev (take n xs)
  AllGrow-take prev zero xs a = tt
  AllGrow-take prev (suc n) [] a = tt
  AllGrow-take prev (suc n) (x ∷ xs) a = (a.0, AllGrow-take prev n xs a.1)

  -- The summary has at most `topN` services (five where that is not positive), and each of them has
  -- grown: its average this week is more than its average last week, where it had one, by more than
  -- a billionth. Sorting is any reordering.
  pub weekly_top_growth_lem :
      (sort_rows : List (GrowthRow F) → List (GrowthRow F))
      (this_week prev_week : List (DailySpend F)) (top_n : ℤ)
      → ((xs : List (GrowthRow F)) → Reorders (sort_rows xs) xs)
      → (length (weekly_top_growth sort_rows this_week prev_week top_n) ≤ five_if_none top_n)
        × AllGrow
            (daily_by_service prev_week)
            (weekly_top_growth sort_rows this_week prev_week top_n)
  unfolding weekly_top_growth
  weekly_top_growth_lem sort_rows this_week prev_week top_n sorts =
      let rows = growing (daily_by_service this_week) (daily_by_service prev_week) in
      (
        length-take_max (five_if_none top_n) (sort_rows rows),
        AllGrow-take (daily_by_service prev_week) (five_if_none top_n) (sort_rows rows) (
            AllGrow-Reorders (daily_by_service prev_week) (sorts rows)
              (growing-AllGrow (daily_by_service this_week) (daily_by_service prev_week))),
      )
