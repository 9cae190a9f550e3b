-- ===== src/Budget/Engine/Runs.antt =====
-- `SplitByGaps` cuts a series exactly at its gaps.
use slo_sentinel.Prelude.{
  ◌≡◌, refl, ap, ◌∙◌, inl, inr, Bool, true, false, List, [], ◌∷◌, ◌++◌, Bool-cases,
}
use mathlib.Core.List.{append_assoc}
use slo_sentinel.Prelude.Int.{ℤ, ltb_ℤ, ◌-ℤ◌}
use slo_sentinel.Query.{Sample}
use slo_sentinel.Prelude.Float.{Float}
use slo_sentinel.Budget.Engine.{split_loop, split_by_gaps}

module _ {F : Type 0} where
  -- `s` follows `last` without a gap.
  abbrev pub Adjacent : ℤ → Sample F → Sample F → Type 0
  Adjacent max_gap last s = ltb_ℤ max_gap (s.time -ℤ last.time) ≡ false

  abbrev pub Gap : ℤ → Sample F → Sample F → Type 0
  Gap max_gap last s = ltb_ℤ max_gap (s.time -ℤ last.time) ≡ true

  -- No two neighbours after `last` are apart.
  abbrev pub IsRunFrom : ℤ → Sample F → List (Sample F) → Type 0
  IsRunFrom max_gap last [] = Unit {0}
  IsRunFrom max_gap last (s ∷ ss) = Adjacent max_gap last s × IsRunFrom max_gap s ss

  abbrev pub IsRun : ℤ → List (Sample F) → Type 0
  IsRun max_gap [] = ⊥
  IsRun max_gap (s ∷ ss) = IsRunFrom max_gap s ss

  abbrev pub last_from : Sample F → List (Sample F) → Sample F
  last_from last [] = last
  last_from last (s ∷ ss) = last_from s ss

  -- The first sample of a later run is apart from the end of the run before it.
  abbrev pub StartsAfter : ℤ → Sample F → List (List (Sample F)) → Type 0
  StartsAfter max_gap last [] = Unit {0}
  StartsAfter max_gap last ([] ∷ runs) = ⊥
  StartsAfter max_gap last ((s ∷ ss) ∷ runs) = Gap max_gap last s

  -- Every run is a run, and a gap parts it from the next one.
  abbrev pub AreRuns : ℤ → List (List (Sample F)) → Type 0
  AreRuns max_gap [] = Unit {0}
  AreRuns max_gap ([] ∷ runs) = ⊥
  AreRuns max_gap ((s ∷ ss) ∷ runs) =
      IsRunFrom max_gap s ss × StartsAfter max_gap (last_from s ss) runs × AreRuns max_gap runs

  abbrev pub concat : List (List (Sample F)) → List (Sample F)
  concat [] = []
  concat (r ∷ rs) = r ++ concat rs

-- The runs by recursion from the end of the series.
module _ ⦃fl : Float⦄ where
  open fl use {F}

  abbrev join_first : Bool → Sample F → List (List (Sample F)) → List (List (Sample F))
  join_first true s runs = (s ∷ []) ∷ runs
  join_first false s [] = (s ∷ []) ∷ []
  join_first false s (r ∷ runs) = (s ∷ r) ∷ runs

  runs_from : ℤ → Sample F → List (Sample F) → List (List (Sample F))
  runs_from g last [] = (last ∷ []) ∷ []
  runs_from g last (s ∷ ss) = join_first (ltb_ℤ g (s.time -ℤ last.time)) last (runs_from g s ss)

  -- Puts the open run in front of the first run.
  abbrev onto : List (Sample F) → List (List (Sample F)) → List (List (Sample F))
  onto cur [] = cur ∷ []
  onto cur (r ∷ runs) = (cur ++ r) ∷ runs

  onto-join_first :
      (cur : List (Sample F)) (last : Sample F) (rs : List (List (Sample F)))
      → onto (cur ++ last ∷ []) rs ≡ onto cur (join_first false last rs)
  onto-join_first cur last [] = refl
  onto-join_first cur last (r ∷ rs) = ap (λ x. x ∷ rs) (append_assoc cur (last ∷ []) r)

  onto-nil :
      (b : Bool) (last : Sample F) (rs : List (List (Sample F)))
      → onto [] (join_first b last rs) ≡ join_first b last rs
  onto-nil true last rs = refl
  onto-nil false last [] = refl
  onto-nil false last (r ∷ rs) = refl

  onto-runs_from :
      (g : ℤ) (last : Sample F) (ss : List (Sample F))
      → onto [] (runs_from g last ss) ≡ runs_from g last ss
  unfolding runs_from
  onto-runs_from g last [] = refl
  onto-runs_from g last (s ∷ ss) = onto-nil _ last (runs_from g s ss)

  split_loop-runs_from :
      (g : ℤ) (runs : List (List (Sample F))) (cur : List (Sample F)) (last : Sample F)
      (ss : List (Sample F))
      → split_loop g runs cur last ss ≡ runs ++ onto cur (runs_from g last ss)
  unfolding split_loop runs_from
  split_loop-runs_from g runs cur last [] = refl
  split_loop-runs_from g runs cur last (s ∷ ss) =
      elim (Bool-cases (ltb_ℤ g (s.time -ℤ last.time))) [
        | inl cut ↦ rw cut (
            split_loop-runs_from g (runs ++ (cur ++ last ∷ []) ∷ []) [] s ss
            ∙ rw (onto-runs_from g s ss)
                (append_assoc runs ((cur ++ last ∷ []) ∷ []) (runs_from g s ss)))
        | inr next ↦ rw next (
            split_loop-runs_from g runs (cur ++ last ∷ []) s ss
            ∙ ap (◌++◌ runs) (onto-join_first cur last (runs_from g s ss)))
      ]

  abbrev FirstIs : Sample F → List (List (Sample F)) → Type 0
  FirstIs s [] = ⊥
  FirstIs s ([] ∷ rs) = ⊥
  FirstIs s ((x ∷ xs) ∷ rs) = x ≡ s

  join_first-AreRuns :
      (g : ℤ) (b : Bool) (last s : Sample F) (rs : List (List (Sample F)))
      → ltb_ℤ g (s.time -ℤ last.time) ≡ b
      → FirstIs s rs
      → AreRuns g rs
      → AreRuns g (join_first b last rs) × FirstIs last (join_first b last rs)
  join_first-AreRuns g b last s [] e f a = absurd f
  join_first-AreRuns g b last s ([] ∷ rs) e f a = absurd f
  join_first-AreRuns g true last s ((x ∷ xs) ∷ rs) e f a = ((tt, rw f e, a), refl)
  join_first-AreRuns g false last s ((x ∷ xs) ∷ rs) e f a = (((rw f e, a.0), a.1, a.2), refl)

  runs_from-AreRuns :
      (g : ℤ) (last : Sample F) (ss : List (Sample F))
      → AreRuns g (runs_from g last ss) × FirstIs last (runs_from g last ss)
  unfolding runs_from
  runs_from-AreRuns g last [] = ((tt, tt, tt), refl)
  runs_from-AreRuns g last (s ∷ ss) =
      let (a, f) = runs_from-AreRuns g s ss in
      join_first-AreRuns g _ last s (runs_from g s ss) refl f a

  concat-join_first :
      (b : Bool) (last : Sample F) (rs : List (List (Sample F)))
      → concat (join_first b last rs) ≡ last ∷ concat rs
  concat-join_first true last rs = refl
  concat-join_first false last [] = refl
  concat-join_first false last (r ∷ rs) = refl

  concat-runs_from :
      (g : ℤ) (last : Sample F) (ss : List (Sample F)) → concat (runs_from g last ss) ≡ last ∷ ss
  unfolding runs_from
  concat-runs_from g last [] = refl
  concat-runs_from g last (s ∷ ss) =
      concat-join_first _ last (runs_from g s ss) ∙ ap (◌∷◌ last) (concat-runs_from g s ss)

  split_by_gaps-runs_from :
      (g : ℤ) (s : Sample F) (ss : List (Sample F)) → split_by_gaps (s ∷ ss) g ≡ runs_from g s ss
  unfolding split_by_gaps
  split_by_gaps-runs_from g s ss = split_loop-runs_from g [] [] s ss ∙ onto-runs_from g s ss

  -- Joined up, the runs of a series are the series. No run is empty, no two neighbours inside a
  -- run are more than the gap apart, and the first sample of a run is more than the gap after the
  -- last one of the run before it.
  pub split_by_gaps-AreRuns :
      (g : ℤ) (samples : List (Sample F))
      → (concat (split_by_gaps samples g) ≡ samples) × AreRuns g (split_by_gaps samples g)
  unfolding split_by_gaps
  split_by_gaps-AreRuns g [] = (refl, tt)
  split_by_gaps-AreRuns g (s ∷ ss) =
      rw (split_by_gaps-runs_from g s ss) (concat-runs_from g s ss, (runs_from-AreRuns g s ss).0)
