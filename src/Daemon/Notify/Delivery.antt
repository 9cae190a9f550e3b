-- ===== src/Daemon/Notify/Delivery.antt =====
-- A change of state is remembered when it was delivered, and is delivered.
use slo_sentinel.Prelude.{
  ℕ, zero, suc, ◌+◌, ◌≤◌, String, ◌≡◌, refl, sym, ap, ◌∙◌, subst, ◌≢◌, ◌⊎◌, inl, inr, Bool, true,
  false, if◌then◌else◌, ◌&&◌, not, Option, none, some, List, [], ◌∷◌, ◌++◌, arith, eq_iff, ltb, leb,
  Bool-cases,
}
use slo_sentinel.Prelude.Dict.{lookup}
use slo_sentinel.Budget.Types.{State, unset}
use slo_sentinel.Alert.Dedupe.{peek, commit, last_notified}
use slo_sentinel.Alert.Dedupe.Runs.{last_notified-commit, peek_same}
use slo_sentinel.Daemon.Notify.{
  RetryState, notify_backoff_after, notify_retry_every, SensorKind, capacity_sensor, budget_sensor,
  Status, Post, gate_post, short_card, full_card, Notices, Replies, is_published, status_of,
  publish, triage_handled, after_triage, is_silenced, Runner, notify, allow, allow_notify,
}
use slo_sentinel.Daemon.Notify.Backoff.{lookup-allow_notify}

publish_dedupe :
    (o : Option Status) (works : Bool) (id : String) (n : Notices)
    → (publish o works id n).0.dedupe ≡ n.dedupe
publish_dedupe none works id n = refl
publish_dedupe (some st) true id n = refl
publish_dedupe (some st) false id n = refl

publish_failed : (o : Option Status) (id : String) (n : Notices) → (publish o false id n).2 ≡ false
publish_failed none id n = refl
publish_failed (some st) id n = refl

triage_dedupe :
    (gate : Bool) (kind : SensorKind) (id : String) (s : State) (works : Bool) (n : Notices)
    → (triage_handled gate kind id s works n).0.dedupe ≡ n.dedupe
unfolding triage_handled
triage_dedupe gate budget_sensor id s works n = refl
triage_dedupe false capacity_sensor id s works n = refl
triage_dedupe true capacity_sensor id s works n =
    publish_dedupe (status_of s (is_published n id)) works id n

triage_failed :
    (gate : Bool) (kind : SensorKind) (id : String) (s : State) (n : Notices)
    → (triage_handled gate kind id s false n).2 ≡ false
unfolding triage_handled
triage_failed gate budget_sensor id s n = refl
triage_failed false capacity_sensor id s n = refl
triage_failed true capacity_sensor id s n = publish_failed (status_of s (is_published n id)) id n

-- How many cards went to the notifier.
abbrev pub cards : List Post → ℕ
cards [] = 0
cards (gate_post st ∷ posts) = cards posts
cards (short_card ∷ posts) = suc (cards posts)
cards (full_card ∷ posts) = suc (cards posts)

cards-append : (a b : List Post) → cards (a ++ b) ≡ cards a + cards b
cards-append [] b = omega arith
cards-append (gate_post st ∷ a) b = cards-append a b
cards-append (short_card ∷ a) b = omega (arith, cards-append a b)
cards-append (full_card ∷ a) b = omega (arith, cards-append a b)

-- The short card goes out exactly where the gate took the event.
abbrev HasCard : Notices × List Post × Bool → Type 0
HasCard (n, posts, taken) = cards posts ≡ (if taken then 1 else 0)

publish-HasCard :
    (o : Option Status) (works : Bool) (id : String) (n : Notices) → HasCard (publish o works id n)
publish-HasCard none works id n = refl
publish-HasCard (some st) true id n = refl
publish-HasCard (some st) false id n = refl

triage-HasCard :
    (gate : Bool) (kind : SensorKind) (id : String) (s : State) (works : Bool) (n : Notices)
    → HasCard (triage_handled gate kind id s works n)
unfolding triage_handled
triage-HasCard gate budget_sensor id s works n = refl
triage-HasCard false capacity_sensor id s works n = refl
triage-HasCard true capacity_sensor id s works n =
    publish-HasCard (status_of s (is_published n id)) works id n

after_triage_sent :
    (id : String) (s : State) (p : Notices × List Post × Bool)
    → HasCard p
    → ((after_triage id s true p).0.dedupe ≡ commit p.0.dedupe id s)
      × (cards (after_triage id s true p).1 ≡ 1)
after_triage_sent id s (n, posts, true) h = (refl, h)
after_triage_sent id s (n, posts, false) h =
    (refl, omega (arith, cards-append posts (full_card ∷ []), h))

after_triage_failed :
    (id : String) (s : State) (p : Notices × List Post × Bool)
    → p.2 ≡ false
    → (after_triage id s false p).0.dedupe ≡ p.0.dedupe
after_triage_failed id s (n, posts, true) h = cc
after_triage_failed id s (n, posts, false) h = refl

notify_down :
    (r : Runner) (s : State) (replies : Replies) (n : Notices)
    → replies.gate_works ≡ false
    → replies.sent ≡ false
    → (notify r s replies n).0.dedupe ≡ n.dedupe
unfolding notify
notify_down r s replies n g f =
    let n' = record n { retries = (allow_notify n.retries r.id).0 } in
    elim (Bool-cases (not (is_silenced r.filter replies.firing) && peek n.dedupe r.id s)) [
      | inl wanted ↦ elim (Bool-cases (allow_notify n.retries r.id).1) [
        | inl allowed ↦
            rw (wanted, allowed, g, f)
              (after_triage_failed r.id s (triage_handled r.gate r.kind r.id s false n')
                  (triage_failed r.gate r.kind r.id s n')
                ∙ triage_dedupe r.gate r.kind r.id s false n')
        | inr early ↦ rw (wanted, early) refl
      ]
      | inr quiet ↦ rw quiet refl
    ]

-- Polls that find the sensor in the same state, with what they send.
unfoldable pub polls : ℕ → Runner → State → Replies → Notices → Notices × List Post
polls zero r s replies n = (n, [])
polls (suc k) r s replies n =
    let (n', posts) = notify r s replies n in
    let (last, later) = polls k r s replies n' in (last, posts ++ later)

-- The state was told with one card, and is remembered as told.
abbrev pub IsTold : String → State → Notices × List Post → Type 0
IsTold id s (n, posts) = (last_notified n.dedupe id ≡ s) × (cards posts ≡ 1)

notify-IsTold :
    (r : Runner) (s : State) (replies : Replies) (n : Notices)
    → s ≢ unset
    → is_silenced r.filter replies.firing ≡ false
    → replies.sent ≡ true
    → peek n.dedupe r.id s ≡ true
    → (allow_notify n.retries r.id).1 ≡ true
    → IsTold r.id s (notify r s replies n)
unfolding notify
notify-IsTold r s replies n ne quiet sent wanted allowed =
    let n' = record n { retries = (allow_notify n.retries r.id).0 } in
    let p = triage_handled r.gate r.kind r.id s replies.gate_works n' in
    let (memory, card) =
      after_triage_sent r.id s p (triage-HasCard r.gate r.kind r.id s replies.gate_works n') in
    rw (quiet, wanted, allowed, sent)
      (
        ap (λ d. last_notified d r.id) memory
            ∙ last_notified-commit p.0.dedupe r.id r.id s ne
            ∙ rw ((eq_iff r.id r.id).1 refl) refl,
        card,
      )

notify_early :
    (r : Runner) (s : State) (replies : Replies) (n : Notices)
    → is_silenced r.filter replies.firing ≡ false
    → peek n.dedupe r.id s ≡ true
    → (allow_notify n.retries r.id).1 ≡ false
    → notify r s replies n ≡ (record n { retries = (allow_notify n.retries r.id).0 }, [])
unfolding notify
notify_early r s replies n quiet wanted early = rw (quiet, wanted, early) refl

and_false : (b : Bool) → (b && false) ≡ false
and_false true = refl
and_false false = refl

notify_done :
    (r : Runner) (s : State) (replies : Replies) (n : Notices)
    → last_notified n.dedupe r.id ≡ s
    → notify r s replies n ≡ (n, [])
unfolding notify
notify_done r s replies n h =
    rw (peek_same n.dedupe r.id s h, and_false (not (is_silenced r.filter replies.firing))) refl

-- A poll that changes only the memory of failures, and sends nothing.
polls_quiet :
    (k : ℕ) (r : Runner) (s : State) (replies : Replies) (n m : Notices)
    → notify r s replies n ≡ (m, [])
    → polls (suc k) r s replies n ≡ polls k r s replies m
unfolding polls
polls_quiet k r s replies n m e =
    ap
      (λ (p : Notices × List Post).
        ((polls k r s replies p.0).0, p.1 ++ (polls k r s replies p.0).1))
      e

polls_done :
    (k : ℕ) (r : Runner) (s : State) (replies : Replies) (n : Notices)
    → last_notified n.dedupe r.id ≡ s
    → polls k r s replies n ≡ (n, [])
unfolding polls
polls_done zero r s replies n h = refl
polls_done (suc k) r s replies n h =
    polls_quiet k r s replies n n (notify_done r s replies n h) ∙ polls_done k r s replies n h

polls-IsTold :
    (k : ℕ) (r : Runner) (s : State) (replies : Replies) (n : Notices)
    → IsTold r.id s (notify r s replies n)
    → IsTold r.id s (polls (suc k) r s replies n)
unfolding polls
polls-IsTold k r s replies n (memory, card) =
    let later = polls_done k r s replies (notify r s replies n).0 memory in
    subst (λ (p : Notices × List Post). IsTold r.id s (p.0, (notify r s replies n).1 ++ p.1))
      (sym later) (memory, cards-append (notify r s replies n).1 [] ∙ omega (arith, card))

-- How many polls an entry may still be held back for.
abbrev IsDue : ℕ → Option RetryState → Type 0
IsDue k none = Unit {0}
IsDue k (some rt) = notify_retry_every ≤ rt.since_fail + suc k

held_back :
    (k since : ℕ)
    → leb notify_retry_every (suc since) ≡ false
    → notify_retry_every ≤ since + suc k
    → (j : ℕ) × (k ≡ suc j) × (false ≡ false) × (notify_retry_every ≤ suc since + suc j)
held_back zero since early h = absurd (ground arith)
held_back (suc j) since early h = (j, refl, refl, omega arith)

allow-IsDue :
    (k : ℕ) (o : Option RetryState)
    → IsDue k o
    → ((allow o).1 ≡ true) ⊎ ((j : ℕ) × (k ≡ suc j) × ((allow o).1 ≡ false) × IsDue j (allow o).0)
unfolding allow
allow-IsDue k none h = inl refl
allow-IsDue k (some rt) h = elim (Bool-cases (ltb rt.fails notify_backoff_after)) [
  | inl few ↦ rw few (inl refl)
  | inr many ↦ elim (Bool-cases (leb notify_retry_every (suc rt.since_fail))) [
    | inl due ↦ rw (many, due) (inl refl)
    | inr early ↦ rw (many, early) (inr (held_back k rt.since_fail early h))
  ]
]

polls_due-IsTold :
    (k : ℕ) (r : Runner) (s : State) (replies : Replies) (n : Notices)
    → s ≢ unset
    → is_silenced r.filter replies.firing ≡ false
    → replies.sent ≡ true
    → peek n.dedupe r.id s ≡ true
    → IsDue k (lookup r.id n.retries)
    → IsTold r.id s (polls (suc k) r s replies n)
unfolding allow_notify
polls_due-IsTold zero r s replies n ne quiet sent wanted due =
    elim (allow-IsDue zero (lookup r.id n.retries) due) [
      | inl allowed ↦
          polls-IsTold zero r s replies n (notify-IsTold r s replies n ne quiet sent wanted allowed)
      | inr (j, e, early, due') ↦ absurd (omega arith)
    ]
polls_due-IsTold (suc i) r s replies n ne quiet sent wanted due =
    elim (allow-IsDue (suc i) (lookup r.id n.retries) due) [
      | inl allowed ↦
          polls-IsTold (suc i) r s replies n
            (notify-IsTold r s replies n ne quiet sent wanted allowed)
      | inr (j, e, early, due') ↦
          let held = record n { retries = (allow_notify n.retries r.id).0 } in
          let later : IsDue i (lookup r.id held.retries) =
            rw (lookup-allow_notify n.retries r.id)
              (subst (λ x. IsDue x (allow (lookup r.id n.retries)).0) (omega arith) due') in
          subst (IsTold r.id s)
            (sym (
              polls_quiet (suc i) r s replies n held
                (notify_early r s replies n quiet wanted early)))
            (polls_due-IsTold i r s replies held ne quiet sent wanted later)
    ]

any-IsDue : (o : Option RetryState) → IsDue 4 o
any-IsDue none = tt
any-IsDue (some rt) = omega arith

-- However often the messages of a sensor failed before, once the notifier works, five polls that
-- find a change that is worth a message, and that no firing alert silences, send exactly one card of
-- it and leave it remembered as told.
pub polls_deliver :
    (r : Runner) (s : State) (replies : Replies) (n : Notices)
    → s ≢ unset
    → is_silenced r.filter replies.firing ≡ false
    → replies.sent ≡ true
    → peek n.dedupe r.id s ≡ true
    → IsTold r.id s (polls 5 r s replies n)
polls_deliver r s replies n ne quiet sent wanted =
    polls_due-IsTold 4 r s replies n ne quiet sent wanted (any-IsDue (lookup r.id n.retries))

-- Polls that find the sensor in the same state, one for each of the replies.
unfoldable pub outage : List Replies → Runner → State → Notices → Notices
outage [] r s n = n
outage (replies ∷ more) r s n = outage more r s (notify r s replies n).0

-- Neither the gate nor the notifier works.
abbrev pub AllDown : List Replies → Type 0
AllDown [] = Unit {0}
AllDown (replies ∷ more) = (replies.gate_works ≡ false) × (replies.sent ≡ false) × AllDown more

outage_dedupe :
    (down : List Replies) (r : Runner) (s : State) (n : Notices)
    → AllDown down
    → (outage down r s n).dedupe ≡ n.dedupe
unfolding outage
outage_dedupe [] r s n a = refl
outage_dedupe (replies ∷ more) r s n (g, f, a) =
    outage_dedupe more r s (notify r s replies n).0 a ∙ notify_down r s replies n g f

-- A change that is worth a message is not lost in an outage of the gate and the notifier, however
-- many polls that lasts: it is not remembered as told, and once the notifier works again, five polls
-- that find the change, unsilenced, send exactly one card of it and leave it remembered.
pub notify_undelivered :
    (down : List Replies) (r : Runner) (s : State) (replies : Replies) (n : Notices)
    → AllDown down
    → s ≢ unset
    → is_silenced r.filter replies.firing ≡ false
    → replies.sent ≡ true
    → peek n.dedupe r.id s ≡ true
    → ((outage down r s n).dedupe ≡ n.dedupe)
      × IsTold r.id s (polls 5 r s replies (outage down r s n))
notify_undelivered down r s replies n a ne quiet sent wanted =
    let same = outage_dedupe down r s n a in
    (
      same,
      polls_deliver r s replies (outage down r s n) ne quiet sent
          (ap (λ d. peek d r.id s) same ∙ wanted),
    )
