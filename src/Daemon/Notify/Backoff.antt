-- ===== src/Daemon/Notify/Backoff.antt =====
-- How often a sensor whose messages fail is tried.
use slo_sentinel.Prelude.{
  ℕ, zero, suc, ◌+◌, ◌*◌, String, ◌≡◌, refl, ap, ◌∙◌, ◌⊎◌, inl, inr, Bool, true, false, Option,
  none, some, List, [], ◌∷◌, arith, eq_iff, ltb, leb, if◌then◌else◌, Bool-cases,
}
use slo_sentinel.Prelude.Dict.{Dict, lookup, update, lookup-update}
use slo_sentinel.Daemon.Notify.{
  RetryState, notify_backoff_after, notify_retry_every, allow, after_failure, put, allow_notify,
  mark_notify_result,
}

-- Rounds in each of which the sensor has something to send and the notifier fails: which of them
-- send.
pub attempts : ℕ → Dict RetryState → String → List Bool
attempts zero retries id = []
attempts (suc n) retries id =
    let (retries', allowed) = allow_notify retries id in
    allowed ∷ attempts n (if allowed then mark_notify_result retries' id false else retries') id

-- Four silent rounds and one that sends, so many times.
abbrev pub cycles : ℕ → List Bool
cycles zero = []
cycles (suc k) = false ∷ false ∷ false ∷ false ∷ true ∷ cycles k

entry_attempts : ℕ → Option RetryState → List Bool
entry_attempts zero o = []
entry_attempts (suc n) o =
    let (o', allowed) = allow o in
    allowed ∷ entry_attempts n (if allowed then some (after_failure o') else o')

lookup-put :
    {V : Type 0} (k : String) (o : Option V) (m : Dict V)
    → (lookup k m ≡ o) ⊎ ((v : V) × (o ≡ some v))
    → lookup k (put k o m) ≡ o
lookup-put k none m (inl e) = e
lookup-put k none m (inr (v, e)) = cc
lookup-put k (some v) m h = rw (lookup-update k k v m, (eq_iff k k).1 refl) refl

allow_put :
    (o : Option RetryState) → (o ≡ (allow o).0) ⊎ ((v : RetryState) × ((allow o).0 ≡ some v))
unfolding allow
allow_put none = inl refl
allow_put (some rt) = elim (Bool-cases (ltb rt.fails notify_backoff_after)) [
  | inl few ↦ rw few (inl refl)
  | inr many ↦ elim (Bool-cases (leb notify_retry_every (suc rt.since_fail))) [
    | inl due ↦ rw (many, due) (inr (record rt { since_fail = 0 }, refl))
    | inr early ↦ rw (many, early) (inr (record rt { since_fail = suc rt.since_fail }, refl))
  ]
]

pub lookup-allow_notify :
    (retries : Dict RetryState) (id : String)
    → lookup id (allow_notify retries id).0 ≡ (allow (lookup id retries)).0
unfolding allow_notify
lookup-allow_notify retries id =
    lookup-put id (allow (lookup id retries)).0 retries (allow_put (lookup id retries))

attempts-entry_attempts :
    (n : ℕ) (retries : Dict RetryState) (id : String)
    → attempts n retries id ≡ entry_attempts n (lookup id retries)
unfolding attempts entry_attempts allow_notify mark_notify_result
attempts-entry_attempts zero retries id = refl
attempts-entry_attempts (suc n) retries id =
    let at = lookup-allow_notify retries id in
    let o = lookup id retries in
    ap (λ l. (allow o).1 ∷ l)
      (elim (Bool-cases (allow o).1) [
        | inl allowed ↦
            let failed = after_failure (lookup id (put id (allow o).0 retries)) in
            rw allowed (
              attempts-entry_attempts n (update id failed (put id (allow o).0 retries)) id
              ∙ rw
                  (
                    lookup-update id id failed (put id (allow o).0 retries),
                    (eq_iff id id).1 refl,
                    at,
                  )
                  refl)
        | inr early ↦
            rw early (attempts-entry_attempts n (put id (allow o).0 retries) id ∙ rw at refl)
      ])

-- Five rounds, so many times.
abbrev five_times : ℕ → ℕ
five_times zero = zero
five_times (suc k) = suc (suc (suc (suc (suc (five_times k)))))

five_times_lem : (k : ℕ) → five_times k ≡ k * 5
five_times_lem zero = refl
five_times_lem (suc k) = omega (arith, five_times_lem k)

is_late : (m : ℕ) → ltb (suc (suc (suc m))) 3 ≡ false
is_late m = ground arith

abbrev late_entry : ℕ → ℕ → Option RetryState
late_entry m since = some (record { fails = suc (suc (suc m)); since_fail = since })

entry_early :
    (n m since : ℕ)
    → leb notify_retry_every (suc since) ≡ false
    → entry_attempts (suc n) (late_entry m since)
      ≡ false ∷ entry_attempts n (late_entry m (suc since))
unfolding entry_attempts allow after_failure
entry_early n m since h = rw (is_late m, h) refl

entry_due :
    (n m since : ℕ)
    → leb notify_retry_every (suc since) ≡ true
    → entry_attempts (suc n) (late_entry m since) ≡ true ∷ entry_attempts n (late_entry (suc m) 0)
unfolding entry_attempts allow after_failure
entry_due n m since h = rw (is_late m, h) refl

entry_cycles : (k m : ℕ) → entry_attempts (five_times k) (late_entry m 0) ≡ cycles k
unfolding entry_attempts
entry_cycles zero m = refl
entry_cycles (suc k) m =
    let n = five_times k in
    entry_early (suc (suc (suc (suc n)))) m 0 refl
    ∙ ap (◌∷◌ false) (entry_early (suc (suc (suc n))) m 1 refl)
    ∙ ap (λ l. false ∷ false ∷ l) (entry_early (suc (suc n)) m 2 refl)
    ∙ ap (λ l. false ∷ false ∷ false ∷ l) (entry_early (suc n) m 3 refl)
    ∙ ap (λ l. false ∷ false ∷ false ∷ false ∷ l) (entry_due n m 4 refl)
    ∙ ap (λ l. false ∷ false ∷ false ∷ false ∷ true ∷ l) (entry_cycles k (suc m))

-- A sensor that has not failed yet, and whose messages all fail from now on, is tried in each of
-- the first three rounds and from then on in exactly every fifth.
pub attempts-cycles :
    (retries : Dict RetryState) (id : String) (k : ℕ)
    → lookup id retries ≡ none
    → attempts (3 + k * 5) retries id ≡ true ∷ true ∷ true ∷ cycles k
unfolding entry_attempts allow after_failure
attempts-cycles retries id k h =
    let rounds : 3 + k * 5 ≡ suc (suc (suc (five_times k))) = omega (arith, five_times_lem k) in
    rw rounds (
      attempts-entry_attempts (suc (suc (suc (five_times k)))) retries id
      ∙ rw h (ap (λ l. true ∷ true ∷ true ∷ l) (entry_cycles k 0)))
