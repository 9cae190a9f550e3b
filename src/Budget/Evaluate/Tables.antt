-- ===== src/Budget/Evaluate/Tables.antt =====
-- The windows of a forecast, and what the loop over them leaves in the table.
use slo_sentinel.Prelude.{
  ◌≡◌, refl, subst, ◌↔◌, ◌⊎◌, inl, inr, Bool, true, false, Option, some, List, [], ◌∷◌, arith,
  if◌then◌else◌, Bool-cases, ok, >>=-eq-ok,
}
use slo_sentinel.Prelude.Int.{ℤ, pos, ltb_ℤ, ◌≤ℤ◌}
use slo_sentinel.Prelude.Float.{Float}
use slo_sentinel.Budget.Types.{hour, WindowEval, Input}
use slo_sentinel.Budget.Evaluate.{same_window, set_window, get_window, eval_window, eval_windows}

pub same_window_iff : (a b : ℤ) → (same_window a b ≡ true) ↔ (a ≡ b)
unfolding same_window
same_window_iff a b = ground arith

abbrev pub In : ℤ → List ℤ → Type 0
In w [] = ⊥
In w (v ∷ vs) = (v ≡ w) ⊎ In w vs

pub In-cases : (w : ℤ) (ws : List ℤ) → In w ws ⊎ ¬ In w ws
In-cases w [] = inr (λ i. i)
In-cases w (v ∷ ws) = elim (Bool-cases (same_window v w)) [
  | inl e ↦ inl (inl ((same_window_iff v w).0 e))
  | inr e ↦ elim (In-cases w ws) [
    | inl i ↦ inl (inr i)
    | inr n ↦ inr (elim [ inl same ↦ cc (e, (same_window_iff v w).1 same) | inr i ↦ n i ])
  ]
]

abbrev pub AllUpTo : ℤ → List ℤ → Type 0
AllUpTo w [] = Unit {0}
AllUpTo w (v ∷ vs) = (v ≤ℤ w) × AllUpTo w vs

-- The longest window, which the code takes only if it is positive.
abbrev pub IsLongest : ℤ → List ℤ → Type 0
IsLongest w ws = (ltb_ℤ (pos 0) w ≡ true) × In w ws × AllUpTo w ws

module _ ⦃fl : Float⦄ where
  open fl use {F, at_most, over, minus}

  pub get_window-set_window :
      (w v : ℤ) (ev : WindowEval F) (m : List (ℤ × WindowEval F))
      → get_window v (set_window w ev m) ≡ (if same_window w v then some ev else get_window v m)
  unfolding get_window set_window
  get_window-set_window w v ev [] = refl
  get_window-set_window w v ev ((u, old) ∷ m) = ground (
    arith,
    same_window_iff w v,
    same_window_iff u w,
    same_window_iff u v,
    get_window-set_window w v ev m,
  )

  -- What the table holds was computed by `evalWindow`.
  abbrev pub Computed : Input F → Bool → List (ℤ × WindowEval F) → Type 0
  Computed inp moved pw =
      (v : ℤ) (ev : WindowEval F) → get_window v pw ≡ some ev → eval_window v inp moved ≡ ok ev

  abbrev pub Has : ℤ → List (ℤ × WindowEval F) → Type 0
  Has w pw = (ev : WindowEval F) × (get_window w pw ≡ some ev)

  pub set_window-Computed :
      (inp : Input F) (moved : Bool) (w : ℤ) (ev : WindowEval F) (pw : List (ℤ × WindowEval F))
      → eval_window w inp moved ≡ ok ev
      → Computed inp moved pw
      → Computed inp moved (set_window w ev pw)
  set_window-Computed inp moved w ev pw e c v ev' h =
      ground (arith, get_window-set_window w v ev pw, same_window_iff w v, c v ev')

  pub set_window-Has :
      (w v : ℤ) (ev : WindowEval F) (pw : List (ℤ × WindowEval F))
      → Has v pw
      → Has v (set_window w ev pw)
  set_window-Has w v ev pw (old, h) =
      rw (get_window-set_window w v ev pw)
        (elim (Bool-cases (same_window w v)) [ inl e ↦ (ev, rw e) | inr e ↦ (old, rw e h) ])

  pub set_window-Has_self :
      (w : ℤ) (ev : WindowEval F) (pw : List (ℤ × WindowEval F)) → Has w (set_window w ev pw)
  set_window-Has_self w ev pw =
      (ev, ground (arith, get_window-set_window w w ev pw, same_window_iff w w))

  abbrev pub Table : Type 0
  Table = List (ℤ × WindowEval F) × Option F

  -- The aggressive ETA that the first loop leaves.
  abbrev pub AggressiveIs : Input F → Bool → List ℤ → Option F → Option F → Type 0
  AggressiveIs inp moved ws before after =
      (In hour ws → (ev : WindowEval F) × (eval_window hour inp moved ≡ ok ev) × (after ≡ ev.eta))
      × (¬ In hour ws → after ≡ before)

  pub AggressiveIs-cons :
      (inp : Input F) (moved : Bool) (w : ℤ) (ws : List ℤ) (ev : WindowEval F)
      (before after : Option F) (b : Bool)
      → same_window w hour ≡ b
      → eval_window w inp moved ≡ ok ev
      → AggressiveIs inp moved ws (if b then ev.eta else before) after
      → AggressiveIs inp moved (w ∷ ws) before after
  AggressiveIs-cons inp moved w ws ev before after true s e a =
      let w_hour : w ≡ hour = (same_window_iff w hour).0 s in
      (
        λ h. elim (In-cases hour ws) [ inl i ↦ a.0 i | inr n ↦ (ev, rw (← w_hour) e, a.1 n) ],
        λ n. absurd (n (inl w_hour)),
      )
  AggressiveIs-cons inp moved w ws ev before after false s e a = (
    λ h. elim h [ inl w_hour ↦ cc ((same_window_iff w hour).1 w_hour) | inr i ↦ a.0 i ],
    λ n. a.1 (λ i. n (inr i)),
  )

  -- What the first loop establishes.
  abbrev pub Windows : Input F → Bool → List ℤ → Table → Table → Type 0
  Windows inp moved ws acc out =
      Computed inp moved out.0
      × ((v : ℤ) → In v ws ⊎ Has v acc.0 → Has v out.0)
      × AggressiveIs inp moved ws acc.1 out.1

  pub eval_windows-Windows :
      (ws : List ℤ) (inp : Input F) (moved : Bool) (acc out : Table)
      → Computed inp moved acc.0
      → eval_windows ws inp moved acc ≡ ok out
      → Windows inp moved ws acc out
  unfolding eval_windows
  eval_windows-Windows [] inp moved acc out c h =
      let same : acc ≡ out = ground arith in
      subst (λ (t : Table). Windows inp moved [] acc t) same
        (c, λ v. elim [ inl i ↦ absurd i | inr k ↦ k ], (λ i. absurd i, λ _. refl))
  eval_windows-Windows (w ∷ ws) inp moved (pw, ag) out c h =
      let (ev, e, rest) = >>=-eq-ok (eval_window w inp moved) _ h in
      let (c', has, agg) =
        eval_windows-Windows ws inp moved _ out (set_window-Computed inp moved w ev pw e c) rest in
      (
        c',
        λ v. elim [
          | inl (inl same) ↦
              has v
                (inr (subst (λ u. Has u (set_window w ev pw)) same (set_window-Has_self w ev pw)))
          | inl (inr i) ↦ has v (inl i)
          | inr k ↦ has v (inr (set_window-Has w v ev pw k))
        ],
        AggressiveIs-cons inp moved w ws ev ag out.1 _ refl e agg,
      )
