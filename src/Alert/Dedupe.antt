-- ===== src/Alert/Dedupe.antt =====
-- internal/alert/dedupe.go: the state that each sensor was last notified of.
pub mod Runs
use slo_sentinel.Prelude.{
  ℕ, String, Bool, true, false, ◌&&◌, not, Option, none, some, [], arith, leb, if◌then◌else◌,
}
use slo_sentinel.Prelude.Dict.{Dict, lookup, update}
use slo_sentinel.Budget.Types.{State, unset, healthy, warning, critical, state_eq}

-- `lastState`, which is also what a nil map reads as when it is empty.
abbrev pub Dedupe : Type 0
Dedupe = Dict State

pub new_dedupe : Dedupe
new_dedupe = []

abbrev pub rank : State → ℕ
rank critical = 2
rank warning = 1
rank healthy = 0
rank unset = 0

-- `prev` in `Peek`: an absent or empty entry counts as healthy.
abbrev pub or_healthy : Option State → State
or_healthy none = healthy
or_healthy (some unset) = healthy
or_healthy (some healthy) = healthy
or_healthy (some warning) = warning
or_healthy (some critical) = critical

unfoldable pub last_notified : Dedupe → String → State
last_notified d sensor_id = or_healthy (lookup sensor_id d)

unfoldable pub peek : Dedupe → String → State → Bool
peek d sensor_id new_state =
    let prev = last_notified d sensor_id in
    if state_eq prev new_state
    then false
    else if not (state_eq new_state healthy)
        && not (state_eq prev healthy)
        && leb (rank new_state) (rank prev)
    then false
    else true

pub commit : Dedupe → String → State → Dedupe
commit d sensor_id new_state = update sensor_id new_state d

pub should_notify : Dedupe → String → State → Dedupe × Bool
should_notify d sensor_id new_state =
    let notify = peek d sensor_id new_state in
    (if notify then commit d sensor_id new_state else d, notify)

pub mark_healthy : Dedupe → String → Dedupe
mark_healthy d sensor_id = update sensor_id healthy d
