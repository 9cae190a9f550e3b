-- ===== src/Daemon/Notify/Gate.antt =====
-- What the gate is told of a sensor, over any history.
use slo_sentinel.Prelude.{
  String, ◌≡◌, refl, sym, subst, ◌⊎◌, inl, inr, Bool, true, false, ◌&&◌, not, List, [], ◌∷◌, ◌++◌,
  str_eq, eq_iff, if◌then◌else◌, Bool-cases,
}
use slo_sentinel.Prelude.Dict.{lookup, lookup-update, lookup-remove}
use slo_sentinel.Budget.Types.{State, unset, healthy, warning, critical}
use slo_sentinel.Alert.Dedupe.{peek}
use slo_sentinel.Daemon.Notify.{
  SensorKind, capacity_sensor, budget_sensor, Status, firing_status, resolved_status, Post,
  gate_post, short_card, full_card, Notices, Replies, flag, is_published, status_of, after_post,
  publish, triage_handled, after_triage, is_silenced, Runner, notify, allow_notify,
}

abbrev pub statuses : List Post → List Status
statuses [] = []
statuses (gate_post st ∷ posts) = st ∷ statuses posts
statuses (short_card ∷ posts) = statuses posts
statuses (full_card ∷ posts) = statuses posts

-- The statuses that an incident goes through: it is resolved only while it is open.
abbrev pub IsIncident : Bool → List Status → Type 0
IsIncident b [] = Unit {0}
IsIncident b (firing_status ∷ rest) = IsIncident true rest
IsIncident true (resolved_status ∷ rest) = IsIncident false rest
IsIncident false (resolved_status ∷ rest) = ⊥

abbrev pub Poll : Type 0
Poll = Runner × State × Replies

-- The statuses of `id` that the gate accepts, over a history of polls of any sensors.
pub accepted : String → Notices → List Poll → List Status
accepted id n [] = []
accepted id n ((r, s, replies) ∷ rest) =
    let (n', posts) = notify r s replies n in
    let later = accepted id n' rest in
    if str_eq r.id id && replies.gate_works then statuses posts ++ later else later

-- What one poll may post, and how it leaves the incident of its sensor.
IsGateStep : String → Bool → Notices → Notices × List Post → Type 0
IsGateStep id works n (n', posts) =
    ((statuses posts ≡ [] ⊎ works ≡ false) × (n'.published_firing ≡ n.published_firing))
    ⊎ ((st : Status) × (works ≡ true)
        × (statuses posts ≡ st ∷ [])
        × (n'.published_firing ≡ after_post st id n.published_firing)
        × ((st ≡ resolved_status) → is_published n id ≡ true))

publish-IsGateStep :
    (id : String) (s sent_state : State) (b works sent : Bool) (n : Notices)
    → is_published n id ≡ b
    → IsGateStep id works n (after_triage id s sent (publish (status_of sent_state b) works id n))
unfolding IsGateStep
publish-IsGateStep id s healthy false works sent n e = inl (inl refl, refl)
publish-IsGateStep id s healthy true false sent n e = inl (inr refl, refl)
publish-IsGateStep id s healthy true true sent n e =
    inr (resolved_status, refl, refl, refl, λ same. e)
publish-IsGateStep id s warning b false sent n e = inl (inr refl, refl)
publish-IsGateStep id s warning b true sent n e = inr (firing_status, refl, refl, refl, λ same. cc)
publish-IsGateStep id s critical b false sent n e = inl (inr refl, refl)
publish-IsGateStep id s critical b true sent n e = inr (firing_status, refl, refl, refl, λ same. cc)
publish-IsGateStep id s unset b false sent n e = inl (inr refl, refl)
publish-IsGateStep id s unset b true sent n e = inr (firing_status, refl, refl, refl, λ same. cc)

triage-IsGateStep :
    (gate : Bool) (kind : SensorKind) (id : String) (s : State) (works sent : Bool) (n : Notices)
    → IsGateStep id works n (after_triage id s sent (triage_handled gate kind id s works n))
unfolding IsGateStep triage_handled
triage-IsGateStep gate budget_sensor id s works sent n = inl (inl refl, refl)
triage-IsGateStep false capacity_sensor id s works sent n = inl (inl refl, refl)
triage-IsGateStep true capacity_sensor id s works sent n =
    publish-IsGateStep id s s (is_published n id) works sent n refl

notify-IsGateStep :
    (r : Runner) (s : State) (replies : Replies) (n : Notices)
    → IsGateStep r.id replies.gate_works n (notify r s replies n)
unfolding IsGateStep notify
notify-IsGateStep r s replies n =
    elim (Bool-cases (not (is_silenced r.filter replies.firing) && peek n.dedupe r.id s)) [
      | inl wanted ↦ elim (Bool-cases (allow_notify n.retries r.id).1) [
        | inl allowed ↦
            rw (wanted, allowed)
              (triage-IsGateStep r.gate r.kind r.id s replies.gate_works replies.sent
                (record n { retries = (allow_notify n.retries r.id).0 }))
        | inr early ↦ rw (wanted, early) (inl (inl refl, refl))
      ]
      | inr quiet ↦ rw quiet (inl (inl refl, refl))
    ]

is_published-after_post :
    (st : Status) (id other : String) (n n' : Notices)
    → n'.published_firing ≡ after_post st id n.published_firing
    → str_eq id other ≡ false
    → is_published n' other ≡ is_published n other
is_published-after_post firing_status id other n n' e d =
    rw (e, lookup-update id other true n.published_firing, d) refl
is_published-after_post resolved_status id other n n' e d =
    rw (e, lookup-remove id other n.published_firing, d) refl

is_published-others :
    (id other : String) (works : Bool) (n : Notices) (p : Notices × List Post)
    → IsGateStep id works n p
    → str_eq id other ≡ false
    → is_published p.0 other ≡ is_published n other
unfolding IsGateStep
is_published-others id other works n p (inl (h, e)) d = rw e refl
is_published-others id other works n p (inr (st, w, h, e, was)) d =
    is_published-after_post st id other n p.0 e d

IsIncident-cons :
    (st : Status) (id : String) (n n' : Notices) (later : List Status)
    → n'.published_firing ≡ after_post st id n.published_firing
    → ((st ≡ resolved_status) → is_published n id ≡ true)
    → IsIncident (is_published n' id) later
    → IsIncident (is_published n id) (st ∷ later)
IsIncident-cons firing_status id n n' later e was i =
    subst (λ b. IsIncident b later)
      (rw (e, lookup-update id id true n.published_firing, (eq_iff id id).1 refl) refl) i
IsIncident-cons resolved_status id n n' later e was i = rw (was refl) (
    subst (λ b. IsIncident b later)
      (rw (e, lookup-remove id id n.published_firing, (eq_iff id id).1 refl) refl) i)

IsIncident-step :
    (id : String) (works : Bool) (n : Notices) (p : Notices × List Post) (later : List Status)
    → IsGateStep id works n p
    → IsIncident (is_published p.0 id) later
    → IsIncident (is_published n id) (if works then statuses p.1 ++ later else later)
unfolding IsGateStep
IsIncident-step id true n p later (inl (inl none_posted, e)) i =
    rw none_posted (subst (λ m. IsIncident (flag (lookup id m)) later) e i)
IsIncident-step id true n p later (inl (inr failed, e)) i = cc
IsIncident-step id false n p later (inl (h, e)) i =
    subst (λ m. IsIncident (flag (lookup id m)) later) e i
IsIncident-step id true n p later (inr (st, w, h, e, was)) i =
    rw h (IsIncident-cons st id n p.0 later e was i)
IsIncident-step id false n p later (inr (st, w, h, e, was)) i = cc

-- Over any history of polls, what the gate accepts of one sensor is an incident at a time: a
-- recovery is posted only where a firing was accepted and no recovery since.
pub accepted-IsIncident :
    (id : String) (n : Notices) (history : List Poll)
    → IsIncident (is_published n id) (accepted id n history)
unfolding accepted
accepted-IsIncident id n [] = tt
accepted-IsIncident id n ((r, s, replies) ∷ rest) =
    let step = notify-IsGateStep r s replies n in
    let (n', posts) = notify r s replies n in
    let later = accepted-IsIncident id n' rest in
    elim (Bool-cases (str_eq r.id id)) [
      | inl mine ↦ rw mine (
          subst
            (λ k. IsIncident (is_published n k) (
              if replies.gate_works
              then statuses posts ++ accepted id n' rest
              else accepted id n' rest))
            ((eq_iff r.id id).0 mine)
            (IsIncident-step r.id replies.gate_works n (n', posts) (accepted id n' rest) step
              (subst (λ k. IsIncident (is_published n' k) (accepted id n' rest))
                (sym ((eq_iff r.id id).0 mine)) later)))
      | inr other ↦ rw other (
          subst (λ b. IsIncident b (accepted id n' rest))
            (is_published-others r.id id replies.gate_works n (n', posts) step other) later)
    ]
