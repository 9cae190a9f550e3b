-- ===== src/Daemon/Weekly/Once.antt =====
-- One summary a week, and none that is forgotten because it was not sent.
use slo_sentinel.Prelude.{
  String, ◌≡◌, refl, sym, ap, ◌∙◌, subst, inl, inr, Bool, true, false, ◌||◌, Option, none, some,
  List, eq_iff, if◌then◌else◌, Bool-cases, Result, ok, err,
}
use slo_sentinel.Prelude.Int.{ℤ}
use slo_sentinel.Prelude.Dict.{Dict}
use slo_sentinel.Prelude.Float.{Float}
use slo_sentinel.Query.{Source}
use slo_sentinel.Capacity.Defs.{Def}
use slo_sentinel.Store.States.{SensorState, get_state}
use slo_sentinel.Daemon.Round.{is_day}
use slo_sentinel.Daemon.Digest.Once.{get_state-or_same}
use slo_sentinel.Cost.Days.{Date}
use slo_sentinel.Cost.Weekly.{GrowthRow}
use slo_sentinel.Daemon.Weekly.{
  weekly_state_id, Billing, WeeklySummary, weekly_row, send_weekly, fetched_weekly, weekly_result,
  weekly_of, maybe_weekly_cost,
}

or_true : (b : Bool) → (b || true) ≡ true
or_true true = refl
or_true false = refl

module _ ⦃fl : Float⦄ where
  open fl use {F}

  -- What a call that posted a summary has left.
  fetched-some :
      (now : ℤ) (week : String) (sent works : Bool) (r : Result String (WeeklySummary F))
      (m : WeeklySummary F) (states after : Dict (SensorState F))
      → fetched_weekly now week sent works r states ≡ (after, some m)
      → (send_weekly now week sent works m states).0 ≡ after
  fetched-some now week sent works (err e) m states after h = cc
  fetched-some now week true works (ok m') m states after h =
      ap (λ (r : Dict (SensorState F) × Option (WeeklySummary F)). r.0) h
  fetched-some now week false works (ok m') m states after h =
      ap (λ (r : Dict (SensorState F) × Option (WeeklySummary F)). r.0) h

  fetched_unsent :
      (now : ℤ) (week : String) (works : Bool) (r : Result String (WeeklySummary F))
      (states : Dict (SensorState F))
      → (fetched_weekly now week false works r states).0 ≡ states
  fetched_unsent now week works (err e) states = refl
  fetched_unsent now week works (ok m) states = refl

  is_day-send_weekly :
      (now : ℤ) (week : String) (m : WeeklySummary F) (states : Dict (SensorState F))
      → is_day week (get_state weekly_state_id (send_weekly now week true true m states).0) ≡ true
  is_day-send_weekly now week m states =
      ap (is_day week) (get_state-or_same now (weekly_row now week) states weekly_state_id refl)
      ∙ (eq_iff week week).1 refl

  -- If the database works and the summary is sent, none is posted again in that week, whatever is
  -- billed; if it is not sent, the states stay as they were, so that it is due again.
  pub maybe_weekly_cost_once :
      (sort_rows : List (GrowthRow F) → List (GrowthRow F)) (billing : Option (Billing F))
      (off : Bool) (src : Source F) (defs : List (Def F)) (now now' : ℤ) (today today' : Date)
      (week : String) (sent works : Bool) (m : WeeklySummary F)
      (states after : Dict (SensorState F))
      → maybe_weekly_cost sort_rows billing off src defs now today week true true states
        ≡ (after, some m)
      → (maybe_weekly_cost sort_rows billing off src defs now' today' week sent works after
          ≡ (after, none))
        × ((maybe_weekly_cost sort_rows billing off src defs now today week false works states).0
            ≡ states)
  unfolding maybe_weekly_cost
  maybe_weekly_cost_once sort_rows billing off src defs now now' today today' week sent works m
        states after h =
      let r = weekly_of billing (λ b. weekly_result sort_rows b src defs now today) in
      elim (Bool-cases (off || is_day week (get_state weekly_state_id states))) [
        | inl e ↦
            let none_sent : maybe_weekly_cost sort_rows billing off src defs now today week true
                  true states
                ≡ (states, none) =
              rw e refl in
            cc
        | inr e ↦
            let sends : fetched_weekly now week true true r states ≡ (after, some m) =
              ap (λ b. if b then (states, none) else fetched_weekly now week true true r states)
                (sym e)
              ∙ h in
            let left : (send_weekly now week true true m states).0 ≡ after =
              fetched-some now week true true r m states after sends in
            let known : is_day week (get_state weekly_state_id after) ≡ true =
              subst (λ d. is_day week (get_state weekly_state_id d) ≡ true) left
                (is_day-send_weekly now week m states) in
            (rw (known, or_true off) refl, rw e (fetched_unsent now week works r states))
      ]
