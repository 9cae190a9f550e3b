-- ===== src/Daemon/Digest/Once.antt =====
-- One summary a day, tried again until it is sent.
use slo_sentinel.Prelude.{
  String, ◌≡◌, refl, sym, ap, ◌∙◌, subst, inl, inr, Bool, true, false, Option, none, some, List,
  str_eq, eq_iff, if◌then◌else◌, Bool-cases, Result-cases,
}
use slo_sentinel.Prelude.Int.{ℤ}
use slo_sentinel.Prelude.Dict.{Dict}
use slo_sentinel.Store.States.{
  SensorState, or_now, set_state, get_state, get_state-set_state, set_state-works,
}
use slo_sentinel.Daemon.Round.{or_same, is_day}
use slo_sentinel.Daemon.Digest.{
  digest_state_id, digest_snap_id, Summary, Json, note_row, after_digest, send_digest, summary_of,
  digest_due, maybe_daily_digest,
}

module _ {F : Type 0} where
  -- A row that a database that works has been given is what is read back.
  pub get_state-or_same :
      (now : ℤ) (st : SensorState F) (states : Dict (SensorState F)) (other : String)
      → str_eq st.sensor_id "" ≡ false
      → get_state other (or_same states (set_state now true st states)) ≡ (
          if str_eq st.sensor_id other
          then some (record st { updated_at = or_now now st.updated_at })
          else get_state other states)
  get_state-or_same now st states other named = elim (Result-cases (set_state now true st states)) [
    | inl (after, e) ↦ rw e (get_state-set_state now st states after other e)
    | inr (e, failed) ↦ absurd (set_state-works now st states e named failed)
  ]

  is_day-after_digest :
      (zero_value : F) (now : ℤ) (json : Json) (day : String) (current : Dict String)
      (states : Dict (SensorState F))
      → is_day day
          (get_state digest_state_id (after_digest zero_value now true json day current states))
        ≡ true
  unfolding after_digest
  is_day-after_digest zero_value now json day current states =
      let dated = note_row zero_value now digest_state_id day in
      ap (is_day day) (
        get_state-or_same now (note_row zero_value now digest_snap_id (json.encode current))
          (or_same states (set_state now true dated states)) digest_state_id refl
        ∙ get_state-or_same now dated states digest_state_id refl)
      ∙ (eq_iff day day).1 refl

  -- What a call that posted a summary has found and done.
  pub posted :
      (zero_value : F) (json : Json) (ids : List String) (due : Option (ℤ × ℤ)) (now clock : ℤ)
      (day : String) (sent works : Bool) (s : Summary) (states after : Dict (SensorState F))
      → maybe_daily_digest zero_value json ids due now clock day sent works states ≡ (after, some s)
      → (is_day day (get_state digest_state_id states) ≡ false)
        × (send_digest zero_value now works json day sent (summary_of json ids states) states
            ≡ (after, some s))
  unfolding maybe_daily_digest
  posted zero_value json ids due now clock day sent works s states after h =
      elim (Bool-cases (digest_due due clock)) [
        | inr e ↦
            (let off : maybe_daily_digest zero_value json ids due now clock day sent works states
                  ≡ (states, none) =
                rw e refl in
              cc)
        | inl e ↦ elim (Bool-cases (is_day day (get_state digest_state_id states))) [
          | inl k ↦
              (let off : maybe_daily_digest zero_value json ids due now clock day sent works states
                    ≡ (states, none) =
                  rw (e, k) refl in
                cc)
          | inr k ↦ (
            k,
            (let on : maybe_daily_digest zero_value json ids due now clock day sent works states
                    ≡ send_digest zero_value now works json day sent (summary_of json ids states)
                        states =
                  rw (e, k) refl in
                sym on ∙ h),
          )
        ]
      ]

  done_today :
      (zero_value : F) (json : Json) (ids : List String) (due : Option (ℤ × ℤ)) (now clock : ℤ)
      (day : String) (sent works : Bool) (states : Dict (SensorState F))
      → is_day day (get_state digest_state_id states) ≡ true
      → maybe_daily_digest zero_value json ids due now clock day sent works states ≡ (states, none)
  unfolding maybe_daily_digest
  done_today zero_value json ids due now clock day sent works states h =
      elim (Bool-cases (digest_due due clock)) [ inl e ↦ rw (e, h) refl | inr e ↦ rw e refl ]

  -- If the database works and the summary is sent, no other is posted on that day, and the states
  -- stay as they were left.
  pub maybe_daily_digest_once :
      (zero_value : F) (json : Json) (ids : List String) (due : Option (ℤ × ℤ))
      (now clock now' clock' : ℤ) (day : String) (sent works : Bool) (s : Summary)
      (states after : Dict (SensorState F))
      → maybe_daily_digest zero_value json ids due now clock day true true states ≡ (after, some s)
      → maybe_daily_digest zero_value json ids due now' clock' day sent works after ≡ (after, none)
  maybe_daily_digest_once zero_value json ids due now clock now' clock' day sent works s states
        after h =
      let (fresh, sends) =
        posted zero_value json ids due now clock day true true s states after h in
      done_today zero_value json ids due now' clock' day sent works after (
        subst (λ d. is_day day (get_state digest_state_id d) ≡ true)
          (ap (λ (r : Dict (SensorState F) × Option Summary). r.0) sends)
          (is_day-after_digest zero_value now json day (summary_of json ids states).current states))

  posts_it :
      (zero_value : F) (now : ℤ) (works : Bool) (json : Json) (day : String) (sent : Bool)
      (s : Summary) (states : Dict (SensorState F))
      → (send_digest zero_value now works json day sent s states).1 ≡ some s
  posts_it zero_value now works json day true s states = refl
  posts_it zero_value now works json day false s states = refl

  -- If the summary is not sent, nothing is written down, so that at any later time of the day it is
  -- posted again.
  pub maybe_daily_digest_retried :
      (zero_value : F) (json : Json) (ids : List String) (due : Option (ℤ × ℤ))
      (now clock now' clock' : ℤ) (day : String) (sent works works' : Bool) (s : Summary)
      (states after : Dict (SensorState F))
      → maybe_daily_digest zero_value json ids due now clock day false works states
        ≡ (after, some s)
      → digest_due due clock' ≡ true
      → (maybe_daily_digest zero_value json ids due now' clock' day sent works' after).1 ≡ some s
  unfolding maybe_daily_digest
  maybe_daily_digest_retried zero_value json ids due now clock now' clock' day sent works works' s
        states after h k =
      let (fresh, sends) =
        posted zero_value json ids due now clock day false works s states after h in
      let same : states ≡ after = ap (λ (r : Dict (SensorState F) × Option Summary). r.0) sends in
      subst
        (λ d. (maybe_daily_digest zero_value json ids due now' clock' day sent works' d).1 ≡ some s)
        same
        (rw (k, fresh)
          (posts_it zero_value now' works' json day sent (summary_of json ids states) states
            ∙ ap (λ (r : Dict (SensorState F) × Option Summary). r.1) sends))
