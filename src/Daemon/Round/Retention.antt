-- ===== src/Daemon/Round/Retention.antt =====
-- The daily pruning of the predictions.
use slo_sentinel.Prelude.{
  String, ◌≡◌, refl, sym, ap, ◌∙◌, subst, ◌≢◌, inl, inr, Bool, true, false, not, eq_iff, Bool-cases,
  Result-cases,
}
use slo_sentinel.Prelude.Int.{ℤ, pos, ltb_ℤ}
use slo_sentinel.Store.States.{get_state, set_state, get_state-set_state, set_state-works}
use slo_sentinel.Store.Predictions.{prune_predictions}
use slo_sentinel.Daemon.Round.{Daemon, prune_state_id, is_day, prune_row, after_prune, maybe_prune}

false-true : false ≢ true
false-true = λ e. cc

module _ {F : Type 0} where
  is_day-after_prune :
      (zero_value : F) (now : ℤ) (day : String) (cutoff : ℤ) (d : Daemon F)
      → is_day day (
          get_state prune_state_id
            (after_prune zero_value now day true d
              (prune_predictions true cutoff d.predictions)).states)
        ≡ true
  unfolding after_prune prune_row prune_predictions
  is_day-after_prune zero_value now day cutoff d =
      let st = prune_row zero_value day in
      elim (Result-cases (set_state now true st d.states)) [
        | inl (after, e) ↦
            rw (e, get_state-set_state now st d.states after prune_state_id e)
              ((eq_iff day day).1 refl)
        | inr (e, failed) ↦ absurd (set_state-works now st d.states e refl failed)
      ]

  skipped :
      (zero_value : F) (days now : ℤ) (day : String) (cutoff : ℤ) (prune_works set_works : Bool)
      (d : Daemon F)
      → is_day day (get_state prune_state_id d.states) ≡ true
      → maybe_prune zero_value days now day cutoff prune_works set_works d ≡ (d, false)
  unfolding maybe_prune
  skipped zero_value days now day cutoff prune_works set_works d h =
      elim (Bool-cases (not (ltb_ℤ (pos 0) days))) [
        | inl off ↦ rw off refl
        | inr on ↦ rw (on, h) refl
      ]

  off_case :
      (zero_value : F) (days now : ℤ) (day : String) (cutoff : ℤ) (d : Daemon F)
      → not (ltb_ℤ (pos 0) days) ≡ true
      → maybe_prune zero_value days now day cutoff true true d ≡ (d, false)
  unfolding maybe_prune
  off_case zero_value days now day cutoff d off = rw off refl

  -- Pruning is done once a day: once the database has done it and written the day, asking again on
  -- the same day changes nothing and does not reach the database.
  pub maybe_prune_once :
      (zero_value : F) (days now now' : ℤ) (day : String) (cutoff cutoff' : ℤ)
      (prune_works set_works : Bool) (d d' : Daemon F)
      → maybe_prune zero_value days now day cutoff true true d ≡ (d', true)
      → maybe_prune zero_value days now' day cutoff' prune_works set_works d' ≡ (d', false)
  unfolding maybe_prune
  maybe_prune_once zero_value days now now' day cutoff cutoff' prune_works set_works d d' h =
      elim (Bool-cases (not (ltb_ℤ (pos 0) days))) [
        | inl off ↦
            absurd
              (false-true (ap (λ p. p.1) (sym (off_case zero_value days now day cutoff d off) ∙ h)))
        | inr on ↦ elim (Bool-cases (is_day day (get_state prune_state_id d.states))) [
          | inl done ↦ absurd (
              false-true
                (ap (λ p. p.1) (sym (skipped zero_value days now day cutoff true true d done) ∙ h)))
          | inr due ↦
              let result =
                after_prune zero_value now day true d
                  (prune_predictions true cutoff d.predictions) in
              let run : maybe_prune zero_value days now day cutoff true true d ≡ (result, true) =
                rw (on, due) refl in
              let same : result ≡ d' = ap (λ p. p.0) (sym run ∙ h) in
              skipped zero_value days now' day cutoff' prune_works set_works d' (
                subst (λ (x : Daemon F). is_day day (get_state prune_state_id x.states) ≡ true) same
                  (is_day-after_prune zero_value now day cutoff d))
        ]
      ]
