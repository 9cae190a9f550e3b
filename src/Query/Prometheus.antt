-- ===== src/Query/Prometheus.antt =====
-- internal/query/prometheus.go: a query over HTTP, with its retries and the reading of its answer.
pub mod Retry
use slo_sentinel.Prelude.{
  ℕ, zero, suc, ◌+◌, ◌*◌, ◌^◌, String, Bool, true, false, not, Option, none, some, List, [], ◌∷◌,
  ◌++◌, str_eq, ltb, leb, ◌==◌, if◌then◌else◌, Result, ok, err, ◌>>=◌, ◌>>◌,
}
use slo_sentinel.Prelude.Int.{ℤ, pos, ◌*ℤ◌}
use slo_sentinel.Prelude.Dict.{Dict}
use slo_sentinel.Prelude.Float.{Float}
use slo_sentinel.Query.{Sample, Series}

-- A raw JSON value.
abbrev pub Raw : Type 0
Raw = List ℕ

pub record RawResult : Type 0 where
  pub metric : Dict String
  pub value : List Raw
  pub values : List (List Raw)

pub record Envelope : Type 0 where
  pub status : String
  pub results : List RawResult

-- How one request ends: it is not built, fails on its way, or has a status and a body, `none` where
-- that does not decode.
pub data Reply : Type 0 where
  not_built : Reply
  not_sent not_read : Reply
  replied : ℕ → Option Envelope → Reply

pub data QueryFault : Type 0 where
  build_failed : QueryFault
  transport : QueryFault
  http_error : ℕ → QueryFault
  not_json : QueryFault
  not_success : String → QueryFault
  bad_number : QueryFault
  exhausted : ℕ → QueryFault

-- `asRetryable` and `Retryable`.
abbrev pub is_retryable : QueryFault → Bool
is_retryable transport = true
is_retryable (http_error code) = leb 500 code
is_retryable _ = false

pub record Prometheus : Type 0 where
  pub attempts : ℕ
  pub backoff : ℕ

-- `New`; the back-off is in nanoseconds.
abbrev pub new_prometheus : Prometheus
new_prometheus = record { attempts = 3; backoff = 500000000 }

module _ ⦃fl : Float⦄ where
  open fl use {F, to_int, parse_float}

  -- `unquote` reads a JSON string, and is `none` for a value that is none.
  module _ (unquote : Raw → Option Raw) where
    abbrev pub or_raw : Raw → Option Raw → Raw
    or_raw raw none = raw
    or_raw raw (some text) = text

    abbrev pub sample_of : Option F → Option F → Result QueryFault (Sample F)
    sample_of none v = err bad_number
    sample_of (some t) none = err bad_number
    sample_of (some t) (some v) = ok (record { time = to_int t *ℤ pos 1000000000; value = v })

    -- `parseValue`: the time is cut to whole seconds.
    pub parse_value : Raw → Raw → Result QueryFault (Sample F)
    parse_value ts_raw val_raw =
        sample_of (parse_float ts_raw) (parse_float (or_raw val_raw (unquote val_raw)))

    -- A pair that is not one is skipped.
    abbrev pub with_pair :
        List Raw → Result QueryFault (List (Sample F)) → Result QueryFault (List (Sample F))
    with_pair (ts ∷ v ∷ []) rest = parse_value ts v >>= λ s. rest >>= λ ss. ok (s ∷ ss)
    with_pair _ rest = rest

    pub read_pairs : List (List Raw) → Result QueryFault (List (Sample F))
    read_pairs [] = ok []
    read_pairs (pair ∷ pairs) = with_pair pair (read_pairs pairs)

    abbrev pub instant_part : RawResult → List Raw → Result QueryFault (List (Series F))
    instant_part r (ts ∷ v ∷ []) =
        parse_value ts v >>= λ s. ok (record { labels = r.metric; samples = s ∷ [] } ∷ [])
    instant_part r _ = ok []

    abbrev pub range_part : RawResult → List (List Raw) → Result QueryFault (List (Series F))
    range_part r [] = ok []
    range_part r (p ∷ ps) =
        read_pairs (p ∷ ps) >>= λ ss. ok (record { labels = r.metric; samples = ss } ∷ [])

    pub read_results : List RawResult → Result QueryFault (List (Series F))
    read_results [] = ok []
    read_results (r ∷ rs) = do
      a ← instant_part r r.value
      b ← range_part r r.values
      rest ← read_results rs
      ok (a ++ b ++ rest)

    abbrev pub read_envelope : Option Envelope → Result QueryFault (List (Series F))
    read_envelope none = err not_json
    read_envelope (some e) =
        if not (str_eq e.status "success")
        then err (not_success e.status)
        else read_results e.results

    -- `once`.
    unfoldable pub once : Reply → Result QueryFault (List (Series F))
    once not_built = err build_failed
    once not_sent = err transport
    once not_read = err transport
    once (replied status body) =
        if not (status == 200) then err (http_error status) else read_envelope body

-- What `get` returns, how many requests it made and how long it slept between them.
pub record Got (A : Type 0) : Type 0 where
  pub result : Result QueryFault A
  pub calls : ℕ
  pub sleeps : List ℕ

module _ {A : Type 0} where
  abbrev pub settled : Result QueryFault A → Got A
  settled r = record { result = r; calls = 1; sleeps = [] }

  abbrev pub after_sleep : List ℕ → Got A → Got A
  after_sleep naps g = record g { calls = suc g.calls; sleeps = naps ++ g.sleeps }

  abbrev pub after_call : Result QueryFault A → List ℕ → Got A → Got A
  after_call (ok a) naps rest = settled (ok a)
  after_call (err e) naps rest =
      if not (is_retryable e) then settled (err e) else after_sleep naps rest

  -- The loop of `get` from request `i` on, with so many left.
  pub get_loop : Prometheus → (ℕ → Result QueryFault A) → ℕ → ℕ → Got A
  get_loop p answers i zero = record { result = err (exhausted p.attempts); calls = 0; sleeps = [] }
  get_loop p answers i (suc left) =
      after_call (answers i) (if ltb 0 left then p.backoff * 2 ^ i ∷ [] else [])
        (get_loop p answers (suc i) left)

  -- `get`: `answers` is what `once` gives for each of the requests.
  unfoldable pub get : Prometheus → (ℕ → Result QueryFault A) → Got A
  get p answers = get_loop p answers 0 p.attempts
