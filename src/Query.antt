-- ===== src/Query.antt =====
-- internal/query/source.go: samples, result series and the interface of a metrics source.
-- A time is a number of nanoseconds from some epoch, a duration a number of nanoseconds.
pub mod Prometheus
use slo_sentinel.Prelude.{String, List, Result}
use slo_sentinel.Prelude.Int.{ℤ}
use slo_sentinel.Prelude.Dict.{Dict}

pub record Sample (F : Type 0) : Type 0 where
  pub time : ℤ
  pub value : F

pub record Series (F : Type 0) : Type 0 where
  pub labels : Dict String
  pub samples : List (Sample F)

-- What a source answers is the environment's: one function for each kind of query. The error is
-- its text.
pub record Source (F : Type 0) : Type 0 where
  pub instant_query : String → ℤ → Result String (List (Series F))
  pub range_query : String → ℤ → ℤ → ℤ → Result String (List (Series F))
