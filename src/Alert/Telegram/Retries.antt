-- ===== src/Alert/Telegram/Retries.antt =====
-- How often `Send` posts, and how long it waits.
use slo_sentinel.Prelude.{
  ℕ, zero, suc, ◌+◌, ◌*◌, ◌^◌, ◌<◌, ◌≡◌, refl, sym, ap, ◌∙◌, true, Option, List, [], ◌∷◌, arith,
  ltb, if◌then◌else◌, lt→ltb, ok, err,
}
use native.Mathlib.Nat.{add-zero, zero-add}
use slo_sentinel.Alert.Telegram.{
  Posted, accepted, retryable, refused, posted_of, not_retried, exhausted, Telegram, Sent,
  after_post, send_loop, send,
}

-- The sleeps before rounds `i + 1` to `i + k`: each twice the one before.
abbrev pub doublings : ℕ → ℕ → ℕ → List ℕ
doublings backoff i zero = []
doublings backoff i (suc k) = backoff * 2 ^ i ∷ doublings backoff (suc i) k

abbrev pub AllRetryable : (ℕ → Option ℕ) → ℕ → ℕ → Type 0
AllRetryable post i zero = Unit {0}
AllRetryable post i (suc k) = (posted_of (post i) ≡ retryable) × AllRetryable post (suc i) k

send_loop_step :
    (t : Telegram) (post : ℕ → Option ℕ) (i todo : ℕ)
    → posted_of (post i) ≡ retryable
    → send_loop t post i (suc todo)
      ≡ after_post
          (if ltb 0 todo then t.backoff * 2 ^ i ∷ [] else [])
          (send_loop t post (suc i) todo)
unfolding send_loop
send_loop_step t post i todo e = rw e

-- `k` retryable rounds, then one that is accepted or refused.
send_loop-ends :
    (t : Telegram) (post : ℕ → Option ℕ) (i k todo : ℕ) (p : Posted)
    → AllRetryable post i k
    → posted_of (post (i + k)) ≡ p
    → k < todo
    → (p ≡ accepted
        → send_loop t post i todo
          ≡ record { result = ok tt; posts = suc k; sleeps = doublings t.backoff i k })
      × (p ≡ refused
          → send_loop t post i todo
            ≡ record { result = err not_retried; posts = suc k; sleeps = doublings t.backoff i k })
unfolding send_loop
send_loop-ends t post i k zero p a e h = elim h [ ]
send_loop-ends t post i zero (suc todo) p a e h =
    let here : posted_of (post i) ≡ p = ap (λ n. posted_of (post n)) (sym (add-zero i)) ∙ e in
    (λ q. rw (here ∙ q), λ q. rw (here ∙ q))
send_loop-ends t post i (suc k) (suc todo) p a e h =
    let there : posted_of (post (suc i + k)) ≡ p = ap (λ n. posted_of (post n)) (omega arith) ∙ e in
    let (yes_case, no_case) = send_loop-ends t post (suc i) k todo p a.1 there (omega arith) in
    let sleeps : ltb 0 todo ≡ true = lt→ltb 0 todo (omega arith) in
    (λ q. rw (a.0, sleeps) (rw (yes_case q)), λ q. rw (a.0, sleeps) (rw (no_case q)))

send_loop-exhausted :
    (t : Telegram) (post : ℕ → Option ℕ) (i k : ℕ)
    → AllRetryable post i (suc k)
    → send_loop t post i (suc k) ≡ record {
      result = err (exhausted t.attempts);
      posts = suc k;
      sleeps = doublings t.backoff i k;
    }
unfolding send_loop
send_loop-exhausted t post i zero a = rw a.0
send_loop-exhausted t post i (suc k) a =
    rw (a.0, lt→ltb 0 (suc k) (omega arith)) (rw (send_loop-exhausted t post (suc i) k a.1))

abbrev pub gave_up : ℕ → ℕ → List ℕ → Sent
gave_up n posts sleeps = record { result = err (exhausted n); posts = posts; sleeps = sleeps }

-- If the first `k` posts may be retried, `k` is below the number of attempts and the next post is
-- accepted, `Send` returns nil after `k + 1` posts, with sleeps that start at `backoff` and double.
pub send-accepted :
    (t : Telegram) (post : ℕ → Option ℕ) (k : ℕ)
    → AllRetryable post 0 k
    → k < t.attempts
    → posted_of (post k) ≡ accepted
    → send t post ≡ record { result = ok tt; posts = suc k; sleeps = doublings t.backoff 0 k }
unfolding send
send-accepted t post k a h e =
    (send_loop-ends t post 0 k t.attempts accepted a (ap (λ m. posted_of (post m)) (zero-add k) ∙ e)
        h).0
      refl

-- If the first `k` posts may be retried, `k` is below the number of attempts and the next post is
-- refused, `Send` returns that error after `k + 1` posts, although attempts are left.
pub send_refused :
    (t : Telegram) (post : ℕ → Option ℕ) (k : ℕ)
    → AllRetryable post 0 k
    → k < t.attempts
    → posted_of (post k) ≡ refused
    → send t post
      ≡ record { result = err not_retried; posts = suc k; sleeps = doublings t.backoff 0 k }
unfolding send
send_refused t post k a h e =
    (send_loop-ends t post 0 k t.attempts refused a (ap (λ m. posted_of (post m)) (zero-add k) ∙ e)
        h).1
      refl

-- If there are `n + 1` attempts and all of the posts may be retried, `Send` gives up after exactly
-- `n + 1` posts, with `n` sleeps between them that double.
pub send_exhausted :
    (t : Telegram) (post : ℕ → Option ℕ) (n : ℕ)
    → AllRetryable post 0 (suc n)
    → t.attempts ≡ suc n
    → send t post ≡ gave_up (suc n) (suc n) (doublings t.backoff 0 n)
unfolding send
send_exhausted t post n a e =
    ap (send_loop t post 0) e
    ∙ send_loop-exhausted t post 0 n a
    ∙ ap (λ m. gave_up m (suc n) (doublings t.backoff 0 n)) e
