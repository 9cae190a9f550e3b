-- ===== src/Daemon/Round/Isolation.antt =====
-- One sensor's failure in a round, and what a sensor's row holds after it.
use slo_sentinel.Prelude.{
  String, ◌≡◌, refl, inl, inr, true, false, some, List, [], ◌∷◌, ◌++◌, str_eq, if◌then◌else◌,
  Result, ok, err, Result-cases,
}
use slo_sentinel.Budget.Types.{state_name, Forecast}
use slo_sentinel.Store.States.{get_state, set_state, get_state-set_state, set_state-works}
use slo_sentinel.Daemon.Notify.{Runner}
use slo_sentinel.Daemon.Round.{
  Daemon, Answers, state_of, record_forecast, poll_sensor, run_one_poll, last_notify,
}

abbrev pub Turn : Type 0 → Type 0 → Type 0
Turn F E = Runner × Answers × Result E (Forecast F)

module _ {F E : Type 0} where
  -- A sensor whose poll fails does not count in a round: every other sensor does, and finds, what
  -- it would without it.
  pub run_one_poll_failed :
      (before after : List (Turn F E)) (r : Runner) (answers : Answers) (e : E) (d : Daemon F)
      → run_one_poll (before ++ (r, answers, err e) ∷ after) d ≡ run_one_poll (before ++ after) d
  unfolding run_one_poll poll_sensor
  run_one_poll_failed [] after r answers e d = refl
  run_one_poll_failed ((r', answers', result) ∷ before) after r answers e d =
      rw (run_one_poll_failed before after r answers e (poll_sensor r' answers' result d).0) refl

  -- Where the database works and the forecast has an id, the row of its sensor is the forecast's
  -- state, value and utilization with the last notification it had before, and no other row
  -- changes, whatever was sent.
  pub get_state-poll_sensor :
      (r : Runner) (answers : Answers) (f : Forecast F) (d : Daemon F)
      (result : Result E (Forecast F)) (other : String)
      → result ≡ ok f
      → answers.set_works ≡ true
      → str_eq f.id "" ≡ false
      → get_state other (poll_sensor r answers result d).0.states ≡ (
          if str_eq f.id other
          then some (record {
            sensor_id = f.id;
            state = state_name f.state;
            last_value = f.value;
            last_utilization = f.utilization;
            last_notify_at = last_notify (get_state f.id d.states);
            updated_at = some answers.now;
          })
          else get_state other d.states)
  unfolding poll_sensor record_forecast state_of
  get_state-poll_sensor r answers f d result other came works named =
      let st = state_of d f in
      elim (Result-cases (set_state answers.now true st d.states)) [
        | inl (after, e) ↦
            rw (came, works, e) (get_state-set_state answers.now st d.states after other e)
        | inr (e, failed) ↦ absurd (set_state-works answers.now st d.states e named failed)
      ]
