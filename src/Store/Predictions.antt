-- ===== src/Store/Predictions.antt =====
-- internal/store/sensors.go and store.go: the record of predictions and its retention.
use slo_sentinel.Prelude.{
  ℕ, suc, ◌+◌, ◌-◌, ◌≤◌, String, ◌≡◌, refl, ap, Bool, true, false, ◌&&◌, not, Option, List, [], ◌∷◌,
  ◌++◌, arith, str_eq, if◌then◌else◌, length, Result, ok, err,
}
use slo_sentinel.Prelude.Int.{ℤ}
use slo_sentinel.Store.Stamp.{stamp_less}
use slo_sentinel.Store.Stamp.Order.{stamp_less_cotrans}
use slo_sentinel.Store.States.{StoreError, empty_id, database_failed}

pub record Prediction (F : Type 0) : Type 0 where
  pub id : ℕ
  pub sensor_id : String
  pub predicted_at : ℤ
  pub eta_aggressive : Option F
  pub eta_conservative : Option F
  pub actual_value : F
  pub catalog_version : String
  pub ceiling : Option F
  pub utilization : Option F

-- The table, with the next id of its AUTOINCREMENT key.
pub record Table (F : Type 0) : Type 0 where
  pub rows : List (Prediction F)
  pub next_id : ℕ

module _ {F : Type 0} where
  -- `AppendPrediction`, of a prediction with a time, as the daemon's have. The database gives the id.
  pub append_prediction : Bool → Prediction F → Table F → Result StoreError (Table F)
  append_prediction works p t =
      if str_eq p.sensor_id ""
      then err empty_id
      else if not works
      then err database_failed
      else ok
          (record { rows = t.rows ++ record p { id = t.next_id } ∷ []; next_id = suc t.next_id })

  -- `ORDER BY predicted_at ASC`: a row goes before the first that is later.
  pub insert_row : Prediction F → List (Prediction F) → List (Prediction F)
  insert_row p [] = p ∷ []
  insert_row p (q ∷ qs) =
      if stamp_less q.predicted_at p.predicted_at then q ∷ insert_row p qs else p ∷ q ∷ qs

  pub order_rows : List (Prediction F) → List (Prediction F)
  order_rows [] = []
  order_rows (p ∷ ps) = insert_row p (order_rows ps)

  -- `WHERE sensor_id = ? AND predicted_at >= ?`.
  pub select_rows : String → ℤ → List (Prediction F) → List (Prediction F)
  select_rows sensor since [] = []
  select_rows sensor since (p ∷ ps) =
      let rest = select_rows sensor since ps in
      if str_eq p.sensor_id sensor && not (stamp_less p.predicted_at since) then p ∷ rest else rest

  pub list_predictions : String → ℤ → Table F → List (Prediction F)
  list_predictions sensor since t = order_rows (select_rows sensor since t.rows)

  unfoldable pub keep_rows : ℤ → List (Prediction F) → List (Prediction F)
  keep_rows cutoff [] = []
  keep_rows cutoff (p ∷ ps) =
      let rest = keep_rows cutoff ps in if stamp_less p.predicted_at cutoff then rest else p ∷ rest

  -- `PrunePredictions`: the number of rows deleted, and the table without them.
  unfoldable pub prune_predictions : Bool → ℤ → Table F → Result StoreError (ℕ × Table F)
  prune_predictions works cutoff t =
      if not works
      then err database_failed
      else ok (
        length t.rows - length (keep_rows cutoff t.rows),
        record t { rows = keep_rows cutoff t.rows },
      )

  pub count_predictions : Table F → ℕ
  count_predictions t = length t.rows

  select_rows-keep_rows :
      (sensor : String) (since cutoff : ℤ) (ps : List (Prediction F))
      → stamp_less since cutoff ≡ false
      → select_rows sensor since (keep_rows cutoff ps) ≡ select_rows sensor since ps
  unfolding select_rows keep_rows
  select_rows-keep_rows sensor since cutoff [] h = refl
  select_rows-keep_rows sensor since cutoff (p ∷ ps) h = ground (
    arith,
    select_rows-keep_rows sensor since cutoff ps,
    stamp_less_cotrans p.predicted_at since cutoff,
  )

  length-keep_rows :
      (cutoff : ℤ) (ps : List (Prediction F)) → length (keep_rows cutoff ps) ≤ length ps
  unfolding keep_rows
  length-keep_rows cutoff [] = omega arith
  length-keep_rows cutoff (p ∷ ps) = ground (arith, length-keep_rows cutoff ps)

  -- Pruning counts the rows that it deletes, and a query for the predictions of any sensor since a
  -- time that the database does not hold before the cutoff gives what it gave before.
  pub prune_predictions_lem :
      (cutoff since : ℤ) (sensor : String) (t t' : Table F) (n : ℕ)
      → prune_predictions true cutoff t ≡ ok (n, t')
      → stamp_less since cutoff ≡ false
      → (list_predictions sensor since t' ≡ list_predictions sensor since t)
        × (count_predictions t' + n ≡ count_predictions t)
  unfolding prune_predictions list_predictions count_predictions
  prune_predictions_lem cutoff since sensor t t' n e h =
      let rows : t'.rows ≡ keep_rows cutoff t.rows = ground arith in
      let many : n ≡ length t.rows - length (keep_rows cutoff t.rows) = ground arith in
      (
        rw rows (ap order_rows (select_rows-keep_rows sensor since cutoff t.rows h)),
        rw (rows, many) (omega (arith, length-keep_rows cutoff t.rows)),
      )
