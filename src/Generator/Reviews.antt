-- ===== src/Generator/Reviews.antt =====
-- What a review without issues by cmd/sentinel-gen/validate.go means.
use slo_sentinel.Prelude.{
  String, ◌≡◌, refl, sym, ap, subst, ◌≢◌, ◌↔◌, Bool, List, [], ◌∷◌, ◌++◌, Result, ok, err,
}
use slo_sentinel.Prelude.Float.{Float}
use slo_sentinel.Budget.Types.{Error}
use slo_sentinel.Budget.Engine.{validate}
use slo_sentinel.Files.{FileSystem, LoadError}
use slo_sentinel.Capacity.Defs.{Def, DefError, load_defs, resolve}
use slo_sentinel.Spec.{Slo}
use slo_sentinel.Generator.{
  Issue, Copy, threshold_issues, def_issues, review_sensors, static_validate,
}

ok_inj : {E A : Type 0} {a b : A} → Path (Result E A) (ok a) (ok b) → a ≡ b
ok_inj e = cc

module _ ⦃fl : Float⦄ where
  open fl use {F}

  -- Definitions of which there are some, each with thresholds that the engine takes.
  abbrev pub AllValid : List (Def F) → Type 0
  AllValid [] = Unit {0}
  AllValid (d ∷ ds) = (validate (resolve d.thresholds) ≡ ok tt) × AllValid ds

  threshold_issues-none :
      (id : String) (r : Result Error (Unit {0})) (rest : List Issue)
      → threshold_issues id r ++ rest ≡ []
      → (r ≡ ok tt) × (rest ≡ [])
  threshold_issues-none id (ok done) rest e = (refl, e)
  threshold_issues-none id (err f) rest e = cc

  def_issues-none : (ds : List (Def F)) → def_issues ds ≡ [] → AllValid ds
  unfolding def_issues
  def_issues-none [] e = tt
  def_issues-none (d ∷ ds) e =
      let (valid, rest) =
        threshold_issues-none d.id (validate (resolve d.thresholds)) (def_issues ds) e in
      (valid, def_issues-none ds rest)

  AllValid-def_issues : (ds : List (Def F)) → AllValid ds → def_issues ds ≡ []
  unfolding def_issues
  AllValid-def_issues [] a = refl
  AllValid-def_issues (d ∷ ds) (valid, a) = rw valid (AllValid-def_issues ds a)

  abbrev pub IsAccepted : Result (LoadError DefError) (List (Def F)) → Type 0
  IsAccepted loaded = (ds : List (Def F)) × (loaded ≡ ok ds) × (ds ≢ []) × AllValid ds

  review_sensors-none :
      (path : String) (r : Result (LoadError DefError) (List (Def F)))
      → (review_sensors path r ≡ []) ↔ IsAccepted r
  unfolding review_sensors
  review_sensors-none path (err e) = (λ h. cc, λ (ds, h, some_there, a). cc)
  review_sensors-none path (ok []) =
      (λ h. cc, λ (ds, h, some_there, a). absurd (some_there (sym (ok_inj h))))
  review_sensors-none path (ok (d ∷ ds)) = (
    λ h. (d ∷ ds, refl, (λ e. cc), def_issues-none (d ∷ ds) h),
    λ (ds', h, some_there, a). AllValid-def_issues (d ∷ ds) (subst AllValid (sym (ok_inj h)) a),
  )

  -- The review of a file of capacity sensors finds nothing exactly when the daemon's loader takes the
  -- file, it defines a sensor, and the thresholds of every sensor are valid once resolved.
  pub static_validate-capacity :
      (is_object : String → Bool) (fs : FileSystem)
      (decode_defs : String → Result String (List (Def F)))
      (decode_slos : String → Result String (List (Slo F))) (copy : Copy) (path : String)
      → (static_validate is_object fs decode_defs decode_slos copy path "capacity" ≡ ok [])
        ↔ IsAccepted (load_defs fs decode_defs path)
  unfolding static_validate
  static_validate-capacity is_object fs decode_defs decode_slos copy path =
      let (to, back) = review_sensors-none path (load_defs fs decode_defs path) in
      (λ h. to (ok_inj h), λ a. ap ok (back a))
