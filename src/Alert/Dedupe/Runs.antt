-- ===== src/Alert/Dedupe/Runs.antt =====
-- Which notifications a history of states gives.
use slo_sentinel.Prelude.{
  ◌<◌, String, ◌≡◌, refl, ◌∙◌, subst, ◌≢◌, ◌↔◌, ◌⊎◌, inl, inr, true, false, ◌&&◌, not, Option, none,
  some, List, [], ◌∷◌, arith, str_eq, eq_iff, leb, if◌then◌else◌, Bool-cases,
}
use slo_sentinel.Prelude.Dict.{lookup, lookup-update}
use slo_sentinel.Budget.Types.{State, unset, healthy, warning, critical, state_eq}
use slo_sentinel.Alert.Dedupe.{Dedupe, rank, or_healthy, last_notified, peek, commit, should_notify}

-- A recovery from an alarm, or an escalation.
abbrev pub IsTransition : State → State → Type 0
IsTransition prev new = ((new ≡ healthy) × (prev ≢ healthy)) ⊎ (rank prev < rank new)

peek_of :
    (prev new : State)
    → new ≢ unset
    → prev ≢ unset
    → ((if state_eq prev new
          then false
          else if not (state_eq new healthy)
              && not (state_eq prev healthy)
              && leb (rank new) (rank prev)
          then false
          else true)
        ≡ true)
      ↔ IsTransition prev new
peek_of unset new n p = absurd (p refl)
peek_of prev unset n p = absurd (n refl)
peek_of healthy healthy n p = ground arith
peek_of healthy warning n p = ground arith
peek_of healthy critical n p = ground arith
peek_of warning healthy n p = ground arith
peek_of warning warning n p = ground arith
peek_of warning critical n p = ground arith
peek_of critical healthy n p = ground arith
peek_of critical warning n p = ground arith
peek_of critical critical n p = ground arith

or_healthy_ne : (o : Option State) → or_healthy o ≢ unset
or_healthy_ne none = λ h. cc
or_healthy_ne (some unset) = λ h. cc
or_healthy_ne (some healthy) = λ h. cc
or_healthy_ne (some warning) = λ h. cc
or_healthy_ne (some critical) = λ h. cc

last_notified_ne : (d : Dedupe) (id : String) → last_notified d id ≢ unset
unfolding last_notified
last_notified_ne d id = or_healthy_ne (lookup id d)

-- A state is worth a message exactly when it is a recovery from the alarm last notified, or ranks
-- above the state last notified; so a repeated state and a step from critical down to warning are
-- silent.
pub peek_iff :
    (d : Dedupe) (id : String) (new : State)
    → new ≢ unset
    → (peek d id new ≡ true) ↔ IsTransition (last_notified d id) new
unfolding peek
peek_iff d id new n = peek_of (last_notified d id) new n (last_notified_ne d id)

same_state : (s : State) → state_eq s s ≡ true
same_state unset = refl
same_state healthy = refl
same_state warning = refl
same_state critical = refl

-- The state last notified is not sent again.
pub peek_same :
    (d : Dedupe) (id : String) (s : State) → last_notified d id ≡ s → peek d id s ≡ false
unfolding peek
peek_same d id s h = rw (h, same_state s) refl

or_healthy-some : (s : State) → s ≢ unset → or_healthy (some s) ≡ s
or_healthy-some unset n = absurd (n refl)
or_healthy-some healthy n = refl
or_healthy-some warning n = refl
or_healthy-some critical n = refl

pub last_notified-commit :
    (d : Dedupe) (id other : String) (s : State)
    → s ≢ unset
    → last_notified (commit d id s) other ≡ (if str_eq id other then s else last_notified d other)
unfolding last_notified commit
last_notified-commit d id other s n =
    rw (lookup-update id other s d)
      (elim (Bool-cases (str_eq id other)) [ inl e ↦ rw e (or_healthy-some s n) | inr e ↦ rw e ])

-- A history: each poll reports a sensor and its state. The result is the states of `id` that a
-- message went out for.
pub messages : Dedupe → String → List (String × State) → List State
messages d id [] = []
messages d id ((sensor, s) ∷ rest) =
    let (d', notify) = should_notify d sensor s in
    let later = messages d' id rest in if notify && str_eq sensor id then s ∷ later else later

abbrev pub IsChainFrom : State → List State → Type 0
IsChainFrom prev [] = Unit {0}
IsChainFrom prev (s ∷ rest) = IsTransition prev s × IsChainFrom s rest

abbrev pub AreStates : List (String × State) → Type 0
AreStates [] = Unit {0}
AreStates ((sensor, s) ∷ rest) = (s ≢ unset) × AreStates rest

-- Over any history of any sensors, the messages about one sensor form a chain that starts at the
-- state it was last notified of: each is a recovery or an escalation from the message before. So
-- no state is sent twice in a row, and no other sensor's history changes what is sent.
pub messages-IsChainFrom :
    (d : Dedupe) (id : String) (history : List (String × State))
    → AreStates history
    → IsChainFrom (last_notified d id) (messages d id history)
unfolding messages should_notify
messages-IsChainFrom d id [] a = tt
messages-IsChainFrom d id ((sensor, s) ∷ rest) (n, a) = elim (Bool-cases (peek d sensor s)) [
  | inl send ↦
      let later = messages-IsChainFrom (commit d sensor s) id rest a in
      let moved = last_notified-commit d sensor id s n in
      elim (Bool-cases (str_eq sensor id)) [
        | inl mine ↦
            rw (send, mine)
              (
                rw (← (eq_iff sensor id).0 mine) ((peek_iff d sensor s n).0 send),
                subst (λ (u : State). IsChainFrom u (messages (commit d sensor s) id rest))
                    (moved ∙ rw mine) later,
              )
        | inr other ↦
            rw (send, other)
              (subst (λ (u : State). IsChainFrom u (messages (commit d sensor s) id rest))
                (moved ∙ rw other) later)
      ]
  | inr silent ↦ rw silent (messages-IsChainFrom d id rest a)
]
