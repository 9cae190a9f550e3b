-- ===== src/Examples/Notices.antt =====
-- Runs of internal/alert, internal/waste and the daemon's round.
use slo_sentinel.Prelude.{
  ◌⊎◌, suc, ℕ, zero, suc, ◌+◌, ◌*◌, String, ◌≡◌, refl, true, false, Option, none, some, List, [],
  ◌∷◌, arith, Result, ok, err,
}
use slo_sentinel.Prelude.Int.{ℤ, pos}
use slo_sentinel.Prelude.Dict.{lookup}
use slo_sentinel.Prelude.Float.{fixed}
use slo_sentinel.Budget.Types.{State, healthy, warning, critical, Forecast}
use slo_sentinel.Alert.Dedupe.{peek, last_notified}
use slo_sentinel.Alert.Dedupe.Runs.{IsChainFrom, messages, messages-IsChainFrom}
use slo_sentinel.Alert.Telegram.{new_telegram, send, posted_of}
use slo_sentinel.Alert.Telegram.Retries.{gave_up, send_exhausted, send-accepted, doublings}
use slo_sentinel.Daemon.Notify.{
  Notices, Replies, Runner, capacity_sensor, is_published, is_silenced,
}
use slo_sentinel.Daemon.Notify.Backoff.{attempts, attempts-cycles}
use slo_sentinel.Daemon.Notify.Delivery.{notify_undelivered, outage, polls, IsTold, polls_deliver}
use slo_sentinel.Daemon.Notify.Gate.{accepted, IsIncident, accepted-IsIncident}
use slo_sentinel.Daemon.Round.{Daemon, Answers, run_one_poll}
use slo_sentinel.Daemon.Round.Isolation.{run_one_poll_failed}
use slo_sentinel.Waste.Tracker.Saving.{open_count, resolve_lem}
use slo_sentinel.Waste.Tracker.{
  resolve, no_resource, notified, dismissed, Entry, Tracker, Candidate,
}
use slo_sentinel.Waste.Tracker.Silence.{
  AreSpaced, announced, announced-AreSpaced, announced_dismissed,
}

abbrev history : List (String × State)
history = ("disk", warning) ∷ ("cpu", critical) ∷ ("disk", warning) ∷ ("disk", healthy) ∷ []

messages-IsChainFrom_example : IsChainFrom (last_notified [] "disk") (messages [] "disk" history)
messages-IsChainFrom_example =
    messages-IsChainFrom [] "disk" history (λ e. cc, (λ e. cc, (λ e. cc, (λ e. cc, tt))))

-- Two answers of 503, then 200.
abbrev recovering : ℕ → Option ℕ
recovering zero = some 503
recovering (suc zero) = some 503
recovering (suc (suc n)) = some 200

send-accepted_example :
    send new_telegram recovering
    ≡ record { result = ok tt; posts = 3; sleeps = doublings new_telegram.backoff 0 2 }
unfolding posted_of
send-accepted_example =
    send-accepted new_telegram recovering 2 (refl, (refl, tt)) (omega arith) refl

abbrev disk : Runner
disk = record { id = "disk"; kind = capacity_sensor; filter = "disk"; gate = true }

abbrev nothing_sent : Notices
nothing_sent = record { dedupe = []; retries = []; published_firing = [] }

-- The disk failed three times and waits.
abbrev waiting : Notices
waiting = record nothing_sent { retries = ("disk", record { fails = 3; since_fail = 1 }) ∷ [] }

abbrev all_down : Replies
all_down = record { firing = ok false; gate_works = false; sent = false }

abbrev all_up : Replies
all_up = record { firing = ok false; gate_works = true; sent = true }

attempts-cycles_example :
    attempts (3 + 1 * 5) [] "disk" ≡ true ∷ true ∷ true ∷ false ∷ false ∷ false ∷ false ∷ true ∷ []
unfolding lookup
attempts-cycles_example = attempts-cycles [] "disk" 1 refl

-- Three polls without the gate and the notifier, and five with them.
notify_undelivered_example :
    ((outage (all_down ∷ all_down ∷ all_down ∷ []) disk warning nothing_sent).dedupe
      ≡ nothing_sent.dedupe)
    × IsTold "disk" warning (
        polls 5 disk warning all_up
          (outage (all_down ∷ all_down ∷ all_down ∷ []) disk warning nothing_sent))
unfolding is_silenced peek last_notified lookup
notify_undelivered_example =
    notify_undelivered (all_down ∷ all_down ∷ all_down ∷ []) disk warning all_up nothing_sent
      (refl, refl, (refl, refl, (refl, refl, tt))) (λ e. cc) refl refl refl

polls_deliver_example : IsTold "disk" warning (polls 5 disk warning all_up waiting)
unfolding is_silenced peek last_notified lookup
polls_deliver_example = polls_deliver disk warning all_up waiting (λ e. cc) refl refl refl

accepted-IsIncident_example :
    IsIncident
      (is_published nothing_sent "disk")
      (accepted "disk" nothing_sent ((disk, critical, all_up) ∷ (disk, healthy, all_up) ∷ []))
accepted-IsIncident_example =
    accepted-IsIncident "disk" nothing_sent
      ((disk, critical, all_up) ∷ (disk, healthy, all_up) ∷ [])

abbrev fresh : Daemon ℤ
fresh = record {
  notices = nothing_sent;
  states = [];
  predictions = record { rows = []; next_id = 1 };
  catalog_version = "";
}

abbrev full : Forecast ℤ
full = record {
  id = "disk";
  now = pos 0;
  value = pos 96000000;
  ceiling = pos 100000000;
  headroom = pos 4000000;
  utilization = pos 960000;
  eta_aggressive = none;
  eta_conservative = none;
  per_window = [];
  state = critical;
  exit_streak = 0;
  ceiling_jumped = false;
}

abbrev came : Result String (Forecast ℤ)
came = ok full

abbrev answers : Answers
answers = record { now = pos 7; append_works = true; set_works = true; replies = all_up }

run_one_poll_failed_example :
    run_one_poll ((disk, answers, came) ∷ (disk, answers, err "down") ∷ []) fresh
    ≡ run_one_poll ((disk, answers, came) ∷ []) fresh
run_one_poll_failed_example =
    run_one_poll_failed ((disk, answers, came) ∷ []) [] disk answers "down" fresh

abbrev slash : String → String → String
slash a b = b

abbrev idle_entry : Entry ℤ
idle_entry = record {
  sensor_id = "idle";
  resource_id = "i-1";
  reason = "idle";
  state = notified;
  first_seen = pos 0;
  last_notified = pos 0;
  renotify = pos 10;
  waste_usd_per_day = pos 0;
  total_waste_usd = pos 5000000;
  dismiss_reason = "";
  dismiss_until = none;
}

abbrev tracking : Entry ℤ → Tracker ℤ
tracking e = record { entries = ("i-1", e) ∷ []; resolved_saving = pos 0 }

abbrev idle : Candidate ℤ
idle = record {
  sensor_id = "idle";
  alert_name = "i-1";
  reason = "idle";
  wasted_cost = pos 1000000;
  renotify = pos 10;
  labels = [];
}

announced-AreSpaced_example :
    AreSpaced (pos 10) (pos 0) (
      announced ⦃fl = fixed⦄ slash "i-1"
        (tracking idle_entry)
        ((pos 5, idle) ∷ (pos 12, idle) ∷ []))
unfolding lookup
announced-AreSpaced_example =
    announced-AreSpaced ⦃fl = fixed⦄ slash "i-1" (tracking idle_entry) idle_entry
      ((pos 5, idle) ∷ (pos 12, idle) ∷ []) refl refl

abbrev silenced_entry : Entry ℤ
silenced_entry = record idle_entry { state = dismissed }

announced_dismissed_example :
    announced ⦃fl = fixed⦄ slash "i-1"
      (tracking silenced_entry)
      ((pos 5, idle) ∷ (pos 12, idle) ∷ [])
    ≡ []
unfolding lookup
announced_dismissed_example =
    announced_dismissed ⦃fl = fixed⦄ slash "i-1" (tracking silenced_entry) silenced_entry
      ((pos 5, idle) ∷ (pos 12, idle) ∷ []) refl refl refl

resolve_lem_example :
    (resolve ⦃fl = fixed⦄ "i-1" (tracking idle_entry) ≡ err no_resource
      × open_count ⦃fl = fixed⦄ "i-1" (tracking idle_entry).entries ≡ 0)
    ⊎ ((t' : Tracker ℤ) × (resolve ⦃fl = fixed⦄ "i-1" (tracking idle_entry) ≡ ok t')
        × (suc (open_count ⦃fl = fixed⦄ "i-1" t'.entries)
            ≡ open_count ⦃fl = fixed⦄ "i-1" (tracking idle_entry).entries)
        × (open_count ⦃fl = fixed⦄ "i-2" t'.entries
            ≡ open_count ⦃fl = fixed⦄ "i-2" (tracking idle_entry).entries))
resolve_lem_example = resolve_lem ⦃fl = fixed⦄ "i-1" "i-2" (tracking idle_entry) refl

send_exhausted_example :
    send new_telegram (λ n. none) ≡ gave_up 3 3 (doublings new_telegram.backoff 0 2)
unfolding posted_of
send_exhausted_example = send_exhausted new_telegram (λ n. none) 2 (refl, (refl, (refl, tt))) refl
