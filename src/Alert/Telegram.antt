-- ===== src/Alert/Telegram.antt =====
-- internal/alert/telegram.go: sending with retries.
pub mod Retries
use slo_sentinel.Prelude.{
  ℕ, zero, suc, ◌*◌, ◌^◌, Option, none, some, List, [], ◌∷◌, ◌++◌, arith, ltb, leb, ◌==◌,
  if◌then◌else◌, Result, ok, err,
}

-- What one `post` comes to: a network error and a status of 500 and above may be retried, any
-- other status but 200 may not.
pub data Posted : Type 0 where
  accepted : Posted
  retryable : Posted
  refused : Posted

-- The classification at the end of `post`: no response at all, or a status code.
unfoldable pub posted_of : Option ℕ → Posted
posted_of none = retryable
posted_of (some status) =
    if leb 500 status then retryable else if status == 200 then accepted else refused

pub data SendError : Type 0 where
  not_retried : SendError
  exhausted : ℕ → SendError

pub record Telegram : Type 0 where
  pub attempts : ℕ
  pub backoff : ℕ

abbrev pub new_telegram : Telegram
new_telegram = record { attempts = 3; backoff = 1000000000 }

-- The result of `Send`, the number of posts and the sleeps between them, in nanoseconds.
pub record Sent : Type 0 where
  pub result : Result SendError (Unit {0})
  pub posts : ℕ
  pub sleeps : List ℕ

abbrev pub after_post : List ℕ → Sent → Sent
after_post slept s = record s { posts = suc s.posts; sleeps = slept ++ s.sleeps }

-- The end of one round: return, or go on.
abbrev pub settle : Posted → Sent → Sent
settle accepted again = record { result = ok tt; posts = 1; sleeps = [] }
settle refused again = record { result = err not_retried; posts = 1; sleeps = [] }
settle retryable again = again

-- The loop of `Send` at round `i`, with `todo` rounds left. `post i` is the status that the
-- service answers in round `i`.
pub send_loop : Telegram → (ℕ → Option ℕ) → ℕ → ℕ → Sent
send_loop t post i zero = record { result = err (exhausted t.attempts); posts = 0; sleeps = [] }
send_loop t post i (suc todo) =
    let again =
      after_post (if ltb 0 todo then t.backoff * 2 ^ i ∷ [] else [])
        (send_loop t post (suc i) todo) in
    settle (posted_of (post i)) again

pub send : Telegram → (ℕ → Option ℕ) → Sent
send t post = send_loop t post 0 t.attempts
