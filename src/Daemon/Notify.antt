-- ===== src/Daemon/Notify.antt =====
-- cmd/sentinel/daemon.go and triage.go: what the daemon sends when a sensor's state changes, and
-- what it remembers of it. The texts of the messages are left out.
pub mod Backoff
pub mod Delivery
pub mod Gate
use slo_sentinel.Prelude.{
  ℕ, suc, String, Bool, true, false, ◌&&◌, not, Option, none, some, List, [], ◌∷◌, ◌++◌, str_eq,
  ltb, leb, if◌then◌else◌, Result, ok, err,
}
use slo_sentinel.Prelude.Dict.{Dict, lookup, update, remove}
use slo_sentinel.Budget.Types.{State, unset, healthy, warning, critical}
use slo_sentinel.Alert.Dedupe.{Dedupe, peek, commit}

pub record RetryState : Type 0 where
  pub fails : ℕ
  pub since_fail : ℕ

abbrev pub notify_backoff_after : ℕ
notify_backoff_after = 3

abbrev pub notify_retry_every : ℕ
notify_retry_every = 5

-- `allowNotify` of a sensor's entry.
pub allow : Option RetryState → Option RetryState × Bool
allow none = (none, true)
allow (some rt) =
    if ltb rt.fails notify_backoff_after
    then (some rt, true)
    else if leb notify_retry_every (suc rt.since_fail)
    then (some (record rt { since_fail = 0 }), true)
    else (some (record rt { since_fail = suc rt.since_fail }), false)

-- The entry that `markNotifyResult` leaves after a failure.
pub after_failure : Option RetryState → RetryState
after_failure none = record { fails = 1; since_fail = 0 }
after_failure (some rt) = record rt { fails = suc rt.fails }

abbrev pub put {ℓ} : {V : Type ℓ} → String → Option V → Dict V → Dict V
put k none m = m
put k (some v) m = update k v m

pub allow_notify : Dict RetryState → String → Dict RetryState × Bool
allow_notify retries id =
    let (rt, allowed) = allow (lookup id retries) in (put id rt retries, allowed)

-- `markNotifyResult`: `sent` says that there was no error.
pub mark_notify_result : Dict RetryState → String → Bool → Dict RetryState
mark_notify_result retries id sent =
    if sent then remove id retries else update id (after_failure (lookup id retries)) retries

pub data SensorKind : Type 0 where
  capacity_sensor budget_sensor : SensorKind

pub data Status : Type 0 where
  firing_status resolved_status : Status

-- What goes out: a post to the gate, and the full or the short card to the notifier.
pub data Post : Type 0 where
  gate_post : Status → Post
  short_card : Post
  full_card : Post

-- The memory of the daemon that notifications read and write.
pub record Notices : Type 0 where
  pub dedupe : Dedupe
  pub retries : Dict RetryState
  pub published_firing : Dict Bool

-- How the services answer in one poll of a sensor.
pub record Replies : Type 0 where
  pub firing : Result String Bool
  pub gate_works : Bool
  pub sent : Bool

abbrev pub flag : Option Bool → Bool
flag none = false
flag (some b) = b

abbrev pub is_published : Notices → String → Bool
is_published n id = flag (lookup id n.published_firing)

-- The status of `triageHandled`, if it posts one: a recovery only where a firing was posted.
abbrev pub status_of : State → Bool → Option Status
status_of healthy true = some resolved_status
status_of healthy false = none
status_of warning b = some firing_status
status_of critical b = some firing_status
status_of unset b = some firing_status

abbrev pub after_post : Status → String → Dict Bool → Dict Bool
after_post firing_status id m = update id true m
after_post resolved_status id m = remove id m

-- `triageHandled` once it has its status: what it remembers, what went out, and its result.
abbrev pub publish : Option Status → Bool → String → Notices → Notices × List Post × Bool
publish none works id n = (n, [], false)
publish (some st) false id n = (n, gate_post st ∷ [], false)
publish (some st) true id n = (
  record n { published_firing = after_post st id n.published_firing },
  gate_post st ∷ short_card ∷ [],
  true,
)

pub triage_handled :
    Bool → SensorKind → String → State → Bool → Notices → Notices × List Post × Bool
triage_handled gate budget_sensor id s works n = (n, [], false)
triage_handled false capacity_sensor id s works n = (n, [], false)
triage_handled true capacity_sensor id s works n =
    publish (status_of s (is_published n id)) works id n

-- The full card, where the gate did not take the event.
abbrev pub send_card : String → State → Bool → Notices → Notices
send_card id s sent n = record {
  dedupe = if sent then commit n.dedupe id s else n.dedupe;
  retries = mark_notify_result n.retries id sent;
  published_firing = n.published_firing;
}

abbrev pub after_triage : String → State → Bool → Notices × List Post × Bool → Notices × List Post
after_triage id s sent (n, posts, true) = (record n { dedupe = commit n.dedupe id s }, posts)
after_triage id s sent (n, posts, false) = (send_card id s sent n, posts ++ full_card ∷ [])

-- An alert manager that fails does not silence: its error counts as no alert.
abbrev pub is_firing : Result String Bool → Bool
is_firing (ok b) = b
is_firing (err e) = false

-- A sensor without a filter is not asked about.
unfoldable pub is_silenced : String → Result String Bool → Bool
is_silenced filter firing = if str_eq filter "" then false else is_firing firing

-- A sensor as `sensorRunner`, and whether the daemon has a gate.
pub record Runner : Type 0 where
  pub id : String
  pub kind : SensorKind
  pub filter : String
  pub gate : Bool

-- The part of `runOnePoll` that notifies, for a sensor that reports the state `s`.
pub notify : Runner → State → Replies → Notices → Notices × List Post
notify r s replies n =
    if not (is_silenced r.filter replies.firing) && peek n.dedupe r.id s
    then (let (retries', allowed) = allow_notify n.retries r.id in
        let n' = record n { retries = retries' } in
        if allowed
        then after_triage r.id s replies.sent
            (triage_handled r.gate r.kind r.id s replies.gate_works n')
        else (n', []))
    else (n, [])
