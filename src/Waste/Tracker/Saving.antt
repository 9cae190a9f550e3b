-- ===== src/Waste/Tracker/Saving.antt =====
-- Resolving a resource.
use slo_sentinel.Prelude.{
  ℕ, suc, String, ◌≡◌, refl, subst, ◌⊎◌, inl, inr, Bool, true, false, ◌&&◌, not, Option, none, some,
  [], ◌∷◌, arith, str_eq, eq_iff, if◌then◌else◌, Bool-cases, Option-cases, ok, err,
}
use mathlib.Core.Option
use slo_sentinel.Prelude.Dict.{Dict}
use slo_sentinel.Prelude.Float.{Float}
use slo_sentinel.Waste.Tracker.{
  resolved, Entry, Tracker, no_resource, is_resolved, resolve_in, resolve,
}

and_not_true : (b : Bool) (n : ℕ) → suc (if b && false then suc n else n) ≡ suc n
and_not_true true n = refl
and_not_true false n = refl

module _ ⦃fl : Float⦄ where
  open fl use {F, plus}

  -- How many entries of a resource are not resolved.
  pub open_count : String → Dict (Entry F) → ℕ
  open_count resource [] = 0
  open_count resource ((k, e) ∷ es) =
      let rest = open_count resource es in
      if str_eq e.resource_id resource && not (is_resolved e.state) then suc rest else rest

  IsResolvedOnce : String → Dict (Entry F) → Option (Dict (Entry F) × F) → Type 0
  IsResolvedOnce resource es none = open_count resource es ≡ 0
  IsResolvedOnce resource es (some (es', saving)) =
      (suc (open_count resource es') ≡ open_count resource es)
      × ((other : String)
          → str_eq other resource ≡ false
          → open_count other es' ≡ open_count other es)

  kept :
      (resource : String) (k : String) (e : Entry F) (es : Dict (Entry F))
      (o : Option (Dict (Entry F) × F))
      → str_eq e.resource_id resource && not (is_resolved e.state) ≡ false
      → IsResolvedOnce resource es o
      → IsResolvedOnce resource
          ((k, e) ∷ es)
          (Option.map (λ (r : Dict (Entry F) × F). ((k, e) ∷ r.0, r.1)) o)
  unfolding IsResolvedOnce open_count
  kept resource k e es none away h = rw away h
  kept resource k e es (some (es', saving)) away (h, g) =
      (rw away h, λ other d. rw (g other d) refl)

  resolve_here :
      (resource : String) (k : String) (e : Entry F) (es : Dict (Entry F))
      → str_eq e.resource_id resource && not (is_resolved e.state) ≡ true
      → IsResolvedOnce resource
          ((k, e) ∷ es)
          (some ((k, record e { state = resolved }) ∷ es, e.total_waste_usd))
  unfolding IsResolvedOnce open_count
  resolve_here resource k e es here = (
    rw here (and_not_true (str_eq e.resource_id resource) (open_count resource es)),
    λ other d.
        ground
          (arith, eq_iff e.resource_id resource, eq_iff other resource, eq_iff e.resource_id other),
  )

  resolve_in-IsResolvedOnce :
      (resource : String) (es : Dict (Entry F))
      → IsResolvedOnce resource es (resolve_in resource es)
  unfolding resolve_in IsResolvedOnce open_count
  resolve_in-IsResolvedOnce resource [] = refl
  resolve_in-IsResolvedOnce resource ((k, e) ∷ es) =
      elim (Bool-cases (str_eq e.resource_id resource && not (is_resolved e.state))) [
        | inl here ↦ rw here (resolve_here resource k e es here)
        | inr away ↦ rw away (
            kept resource k e es (resolve_in resource es) away
              (resolve_in-IsResolvedOnce resource es))
      ]

  -- `Resolve` fails exactly when the resource has no entry left to resolve, and else resolves one
  -- of them: one fewer is left, and as many of any other resource as before.
  pub resolve_lem :
      (resource other : String) (t : Tracker F)
      → str_eq other resource ≡ false
      → (resolve resource t ≡ err no_resource × open_count resource t.entries ≡ 0)
        ⊎ ((t' : Tracker F) × (resolve resource t ≡ ok t')
            × (suc (open_count resource t'.entries) ≡ open_count resource t.entries)
            × (open_count other t'.entries ≡ open_count other t.entries))
  unfolding resolve IsResolvedOnce
  resolve_lem resource other t different = elim (Option-cases (resolve_in resource t.entries)) [
    | inl none_left ↦ inl (
      rw none_left refl,
      subst (IsResolvedOnce resource t.entries) none_left
          (resolve_in-IsResolvedOnce resource t.entries),
    )
    | inr ((es, saving), found) ↦
        let once =
          subst (IsResolvedOnce resource t.entries) found
            (resolve_in-IsResolvedOnce resource t.entries) in
        inr (
          record { entries = es; resolved_saving = plus t.resolved_saving saving },
          rw found refl,
          once.0,
          once.1 other different,
        )
  ]
