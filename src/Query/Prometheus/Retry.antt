-- ===== src/Query/Prometheus/Retry.antt =====
-- The retries of `get` against the first answer that settles the query.
use slo_sentinel.Prelude.{
  ℕ, zero, suc, ◌*◌, ◌^◌, ◌≤◌, ◌≡◌, refl, inl, inr, Bool, true, false, Option, none, some, List, [],
  ◌∷◌, arith, ltb, if◌then◌else◌, Bool-cases, length, length-append, Result, ok, err, Result-cases,
}
use slo_sentinel.Query.Prometheus.{
  QueryFault, exhausted, is_retryable, Prometheus, Got, after_sleep, get_loop, get,
}

one_nap : (b : Bool) (n : ℕ) → length (if b then n ∷ [] else []) ≤ 1
one_nap true n = omega arith
one_nap false n = omega arith

module _ {A : Type 0} where
  -- An answer that is tried again.
  abbrev pub is_transient : Result QueryFault A → Bool
  is_transient (ok a) = false
  is_transient (err e) = is_retryable e

  -- The first of the answers `i` to `i + k - 1` that is not transient, with its place.
  abbrev pub first_lasting : (ℕ → Result QueryFault A) → ℕ → ℕ → Option (ℕ × Result QueryFault A)
  first_lasting answers i zero = none
  first_lasting answers i (suc k) =
      let rest = first_lasting answers (suc i) k in
      if is_transient (answers i) then rest else some (i, answers i)

  abbrev pub result_of : Prometheus → Option (ℕ × Result QueryFault A) → Result QueryFault A
  result_of p none = err (exhausted p.attempts)
  result_of p (some (i, r)) = r

  after_sleep-bounds :
      (naps : List ℕ) (g : Got A) (left : ℕ)
      → length naps ≤ 1
      → g.calls ≤ left
      → length g.sleeps ≤ g.calls
      → ((after_sleep naps g).calls ≤ suc left)
        × (length (after_sleep naps g).sleeps ≤ (after_sleep naps g).calls)
  after_sleep-bounds naps g left n c s = (omega arith, omega (arith, length-append naps g.sleeps))

  get_loop_lem :
      (p : Prometheus) (answers : ℕ → Result QueryFault A) (i left : ℕ)
      → ((get_loop p answers i left).result ≡ result_of p (first_lasting answers i left))
        × ((get_loop p answers i left).calls ≤ left)
        × (length (get_loop p answers i left).sleeps ≤ (get_loop p answers i left).calls)
  unfolding get_loop
  get_loop_lem p answers i zero = (refl, omega arith, omega arith)
  get_loop_lem p answers i (suc left) = elim (Result-cases (answers i)) [
    | inl (a, e) ↦ rw e (refl, omega arith, omega arith)
    | inr (e, q) ↦ elim (Bool-cases (is_retryable e)) [
      | inl t ↦
          let (same, calls, sleeps) = get_loop_lem p answers (suc i) left in
          let (more, naps) =
            after_sleep-bounds (if ltb 0 left then p.backoff * 2 ^ i ∷ [] else [])
              (get_loop p answers (suc i) left) left (one_nap (ltb 0 left) (p.backoff * 2 ^ i))
              calls sleeps in
          rw (q, t) (same, more, naps)
      | inr t ↦ rw (q, t) (refl, omega arith, omega arith)
    ]
  ]

  -- `get` returns the first answer that is not worth a retry, if one of the requests that it may make
  -- has such an answer, and else gives up; it makes no more requests than `attempts`, and sleeps no
  -- more often than it asks.
  pub get_lem :
      (p : Prometheus) (answers : ℕ → Result QueryFault A)
      → ((get p answers).result ≡ result_of p (first_lasting answers 0 p.attempts))
        × ((get p answers).calls ≤ p.attempts)
        × (length (get p answers).sleeps ≤ (get p answers).calls)
  unfolding get
  get_lem p answers = get_loop_lem p answers 0 p.attempts
