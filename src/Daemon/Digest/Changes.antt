-- ===== src/Daemon/Digest/Changes.antt =====
-- What a summary reports as changed, relative to the last one that was sent.
use slo_sentinel.Prelude.{
  String, ◌≡◌, refl, sym, ap, ◌∙◌, subst, ◌≢◌, ◌↔◌, ◌⊎◌, inl, inr, true, false, Option, some, none,
  List, [], ◌∷◌, str_eq, eq_iff, Bool-cases, Option-cases,
}
use slo_sentinel.Prelude.Int.{ℤ}
use slo_sentinel.Prelude.Dict.{Dict, lookup}
use slo_sentinel.Store.States.{SensorState, or_now, set_state, get_state}
use slo_sentinel.Daemon.Round.{or_same}
use slo_sentinel.Daemon.Digest.{
  digest_state_id, digest_snap_id, Summary, Json, changes, changes_since, digest_changes, note_row,
  after_digest, summary_of, maybe_daily_digest,
}
use slo_sentinel.Daemon.Digest.Once.{get_state-or_same, posted}

abbrev pub Among : {A : Type 0} → A → List A → Type 0
Among x [] = ⊥
Among x (y ∷ ys) = (x ≡ y) ⊎ Among x ys

-- What is to be reported: the sensor has the state `new` now, had `old`, and these differ.
abbrev pub IsChange : Dict String → Dict String → String × String × String → Type 0
IsChange before current (id, old, new) =
    Among (id, new) current × (lookup id before ≡ some old) × (old ≢ new)

changes_unknown :
    (before current : Dict String) (id st : String)
    → lookup id before ≡ none
    → changes before ((id, st) ∷ current) ≡ changes before current
unfolding changes
changes_unknown before current id st e = rw (changes, e) refl

changes_same :
    (before current : Dict String) (id st o : String)
    → lookup id before ≡ some o
    → str_eq o st ≡ true
    → changes before ((id, st) ∷ current) ≡ changes before current
unfolding changes
changes_same before current id st o e same = rw (changes, e, same) refl

changes_differ :
    (before current : Dict String) (id st o : String)
    → lookup id before ≡ some o
    → str_eq o st ≡ false
    → changes before ((id, st) ∷ current) ≡ (id, o, st) ∷ changes before current
unfolding changes
changes_differ before current id st o e differ = rw (changes, e, differ) refl

str_eq-false : (a b : String) → str_eq a b ≡ false → a ≢ b
str_eq-false a b h same = cc ((eq_iff a b).1 same, h)

IsChange-later :
    (before current : Dict String) (c : String × String × String) (x : String × String)
    → IsChange before current c
    → IsChange before (x ∷ current) c
IsChange-later before current (id, old, new) x (among, was, differ) = (inr among, was, differ)

changes-IsChange :
    (before current : Dict String) (c : String × String × String)
    → Among c (changes before current)
    → IsChange before current c
unfolding changes
changes-IsChange before [] c among = absurd among
changes-IsChange before ((id, st) ∷ current) c among =
    let skipped = λ (e : changes before ((id, st) ∷ current) ≡ changes before current).
      IsChange-later before current c (id, st)
        (changes-IsChange before current c (subst (Among c) e among)) in
    elim (Option-cases (lookup id before)) [
      | inl e ↦ skipped (changes_unknown before current id st e)
      | inr (o, e) ↦ elim (Bool-cases (str_eq o st)) [
        | inl same ↦ skipped (changes_same before current id st o e same)
        | inr differ ↦
            elim (subst (Among c) (changes_differ before current id st o e differ) among) [
              | inl here ↦
                  subst (IsChange before ((id, st) ∷ current)) (sym here)
                    (inl refl, e, str_eq-false o st differ)
              | inr there ↦
                  IsChange-later before current c (id, st) (changes-IsChange before current c there)
            ]
      ]
    ]

changes_keeps :
    (before current : Dict String) (key st : String) (c : String × String × String)
    → Among c (changes before current)
    → Among c (changes before ((key, st) ∷ current))
changes_keeps before current key st c among = elim (Option-cases (lookup key before)) [
  | inl e ↦ subst (Among c) (sym (changes_unknown before current key st e)) among
  | inr (o, e) ↦ elim (Bool-cases (str_eq o st)) [
    | inl same ↦ subst (Among c) (sym (changes_same before current key st o e same)) among
    | inr differ ↦
        subst (Among c) (sym (changes_differ before current key st o e differ)) (inr among)
  ]
]

changes_here :
    (before current : Dict String) (id old new : String)
    → lookup id before ≡ some old
    → old ≢ new
    → Among (id, old, new) (changes before ((id, new) ∷ current))
changes_here before current id old new was differ = elim (Bool-cases (str_eq old new)) [
  | inl same ↦ absurd (differ ((eq_iff old new).0 same))
  | inr other ↦
      subst (Among (id, old, new)) (sym (changes_differ before current id new old was other))
        (inl refl)
]

IsChange-changes :
    (before current : Dict String) (c : String × String × String)
    → IsChange before current c
    → Among c (changes before current)
IsChange-changes before [] (id, old, new) (among, was, differ) = absurd among
IsChange-changes before ((key, st) ∷ current) (id, old, new) (inl here, was, differ) =
    subst (λ (x : String × String). Among (id, old, new) (changes before (x ∷ current))) here
      (changes_here before current id old new was differ)
IsChange-changes before ((key, st) ∷ current) (id, old, new) (inr there, was, differ) =
    changes_keeps before current key st (id, old, new)
      (IsChange-changes before current (id, old, new) (there, was, differ))

module _ {F : Type 0} where
  changes_since-some :
      (json : Json) (row : SensorState F) (old current : Dict String)
      → str_eq row.state "" ≡ false
      → json.decode row.state ≡ some old
      → changes_since json (some row) current ≡ changes old current
  changes_since-some json row old current named e = rw (named, e) refl

  digest_changes_snapshot :
      (zero_value : F) (json : Json) (ids : List String) (due : Option (ℤ × ℤ)) (now clock : ℤ)
      (day : String) (s : Summary) (states after : Dict (SensorState F)) (current : Dict String)
      → maybe_daily_digest zero_value json ids due now clock day true true states ≡ (after, some s)
      → str_eq (json.encode s.current) "" ≡ false
      → json.decode (json.encode s.current) ≡ some s.current
      → digest_changes json current after ≡ changes s.current current
  unfolding digest_changes after_digest
  digest_changes_snapshot zero_value json ids due now clock day s states after current h named
        back =
      let (fresh, sends) =
        posted zero_value json ids due now clock day true true s states after h in
      let dated =
        or_same states (set_state now true (note_row zero_value now digest_state_id day) states) in
      let row = note_row zero_value now digest_snap_id (json.encode s.current) in
      let given : some (summary_of json ids states) ≡ some s =
        ap (λ (r : Dict (SensorState F) × Option Summary). r.1) sends in
      let same : summary_of json ids states ≡ s = cc in
      let left : after_digest zero_value now true json day s.current states ≡ after =
        ap (λ (x : Summary). after_digest zero_value now true json day x.current states) (sym same)
        ∙ ap (λ (r : Dict (SensorState F) × Option Summary). r.0) sends in
      ap (λ d. changes_since json (get_state digest_snap_id d) current) (sym left)
      ∙ ap (λ r. changes_since json r current) (get_state-or_same now row dated digest_snap_id refl)
      ∙ changes_since-some json (record row { updated_at = or_now now row.updated_at }) s.current
          current named back

  -- Once a summary was sent and its snapshot written, the next one reports a change of a sensor
  -- exactly where the sensor has a state now, had one in the summary, and the two differ, and reports
  -- it with these two states; here the snapshot is read back from its JSON as it was, and its JSON is
  -- not the empty text.
  pub digest_changes_lem :
      (zero_value : F) (json : Json) (ids : List String) (due : Option (ℤ × ℤ)) (now clock : ℤ)
      (day : String) (s : Summary) (states after : Dict (SensorState F)) (current : Dict String)
      (c : String × String × String)
      → maybe_daily_digest zero_value json ids due now clock day true true states ≡ (after, some s)
      → str_eq (json.encode s.current) "" ≡ false
      → json.decode (json.encode s.current) ≡ some s.current
      → Among c (digest_changes json current after) ↔ IsChange s.current current c
  digest_changes_lem zero_value json ids due now clock day s states after current c h named back =
      let e =
        digest_changes_snapshot zero_value json ids due now clock day s states after current h named
          back in
      (
        λ among. changes-IsChange s.current current c (subst (Among c) e among),
        λ change. subst (Among c) (sym e) (IsChange-changes s.current current c change),
      )
