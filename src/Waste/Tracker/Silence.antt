-- ===== src/Waste/Tracker/Silence.antt =====
-- When a candidate is announced again, over a history of scans.
use slo_sentinel.Prelude.{
  String, ◌≡◌, refl, subst, ◌⊎◌, inl, inr, Bool, true, false, ◌&&◌, Option, none, some, List, [],
  ◌∷◌, arith, str_eq, eq_iff, if◌then◌else◌, Bool-cases,
}
use mathlib.Core.Path.{ap₂}
use slo_sentinel.Prelude.Int.{ℤ, pos, ltb_ℤ, ◌-ℤ◌}
use slo_sentinel.Prelude.Dict.{lookup, lookup-update}
use slo_sentinel.Prelude.Float.{Float}
use slo_sentinel.Waste.Tracker.{
  Lifecycle, notified, renoted, dismissed, resolved, Entry, Tracker, Candidate, Message,
  resource_key, accrued, observe_dismissed, observe_open, observe_by_state, observe_entry,
  observe_found, observe,
}

abbrev pub is_dismissed : Lifecycle → Bool
is_dismissed dismissed = true
is_dismissed notified = false
is_dismissed renoted = false
is_dismissed resolved = false

abbrev pub is_message : Option Message → Bool
is_message none = false
is_message (some m) = true

-- Each time is at least the period after the one before it.
abbrev pub AreSpaced : ℤ → ℤ → List ℤ → Type 0
AreSpaced period previous [] = Unit {0}
AreSpaced period previous (t ∷ ts) = (ltb_ℤ (t -ℤ previous) period ≡ false) × AreSpaced period t ts

and_false : (b : Bool) → (b && false) ≡ false
and_false true = refl
and_false false = refl

module _ ⦃fl : Float⦄ where
  open fl use {F}

  abbrev pub Scan : Type 0
  Scan = ℤ × Candidate F

  abbrev pub key_at : (String → String → String) → Candidate F → String
  key_at join c = join c.sensor_id (resource_key c)

  -- The times of the messages about the entry of `key`, over a history of observations.
  pub announced : (String → String → String) → String → Tracker F → List Scan → List ℤ
  announced join key t [] = []
  announced join key t ((now, c) ∷ rest) =
      let (t', message) = observe join now c t in
      let later = announced join key t' rest in
      if is_message message && str_eq (key_at join c) key then now ∷ later else later

  -- What an observation does to an entry that is not dismissed.
  IsOpenStep : ℤ → Entry F → Entry F × Option Message → Type 0
  IsOpenStep now e (e', message) =
      (is_dismissed e'.state ≡ false)
      × (e'.renotify ≡ e.renotify)
      × ((is_message message ≡ false) × (e'.last_notified ≡ e.last_notified)
          ⊎ (is_message message ≡ true)
            × (e'.last_notified ≡ now)
            × (ltb_ℤ (now -ℤ e.last_notified) e.renotify ≡ false))

  observe_open-IsOpenStep :
      (now : ℤ) (e : Entry F)
      → is_dismissed e.state ≡ false
      → IsOpenStep now e (observe_open now (now -ℤ e.last_notified) e)
  unfolding IsOpenStep observe_open
  observe_open-IsOpenStep now e n = elim (Bool-cases (ltb_ℤ (pos 0) e.renotify)) [
    | inl due ↦ elim (Bool-cases (ltb_ℤ (now -ℤ e.last_notified) e.renotify)) [
      | inl early ↦ rw (due, early) (n, refl, inl (refl, refl))
      | inr late ↦ rw (due, late) (refl, refl, inr (refl, refl, refl))
    ]
    | inr once ↦ rw once (n, refl, inl (refl, refl))
  ]

  observe_by_state-IsOpenStep :
      (s : Lifecycle) (now : ℤ) (e : Entry F)
      → is_dismissed s ≡ false
      → is_dismissed e.state ≡ false
      → IsOpenStep now e (observe_by_state s now (now -ℤ e.last_notified) e)
  unfolding observe_by_state
  observe_by_state-IsOpenStep dismissed now e n n' = cc
  observe_by_state-IsOpenStep notified now e n n' = observe_open-IsOpenStep now e n'
  observe_by_state-IsOpenStep renoted now e n n' = observe_open-IsOpenStep now e n'
  observe_by_state-IsOpenStep resolved now e n n' = observe_open-IsOpenStep now e n'

  observe_entry-IsOpenStep :
      (now : ℤ) (c : Candidate F) (e : Entry F)
      → is_dismissed e.state ≡ false
      → IsOpenStep now e (observe_entry now c e)
  unfolding observe_entry IsOpenStep
  observe_entry-IsOpenStep now c e n =
      observe_by_state-IsOpenStep e.state now (record e { total_waste_usd = accrued now c e }) n n

  lookup-observe :
      (join : String → String → String) (key : String) (now : ℤ) (c : Candidate F) (t : Tracker F)
      → lookup key (observe join now c t).0.entries ≡ (
          if str_eq (key_at join c) key
          then some (observe_found now c (lookup (key_at join c) t.entries)).0
          else lookup key t.entries)
  unfolding observe
  lookup-observe join key now c t =
      lookup-update (key_at join c) key (observe_found now c (lookup (key_at join c) t.entries)).0
        t.entries

  lookup-observe_self :
      (join : String → String → String) (key : String) (now : ℤ) (c : Candidate F) (t : Tracker F)
      (e : Entry F)
      → str_eq (key_at join c) key ≡ true
      → lookup key t.entries ≡ some e
      → (lookup key (observe join now c t).0.entries ≡ some (observe_entry now c e).0)
        × ((observe join now c t).1 ≡ (observe_entry now c e).1)
  unfolding observe observe_found
  lookup-observe_self join key now c t e same h =
      let at : lookup (key_at join c) t.entries ≡ some e =
        ground (arith, eq_iff (key_at join c) key) in
      (rw (lookup-observe join key now c t, same, at) refl, rw at refl)

  -- While an entry is not dismissed, and observing never dismisses one, any two messages about it
  -- are at least its period apart, the first of them at least that long after the entry's last
  -- message, whatever is scanned when.
  pub announced-AreSpaced :
      (join : String → String → String) (key : String) (t : Tracker F) (e : Entry F)
      (history : List Scan)
      → lookup key t.entries ≡ some e
      → is_dismissed e.state ≡ false
      → AreSpaced e.renotify e.last_notified (announced join key t history)
  unfolding announced IsOpenStep
  announced-AreSpaced join key t e [] h n = tt
  announced-AreSpaced join key t e ((now, c) ∷ rest) h n =
      let t' = (observe join now c t).0 in
      elim (Bool-cases (str_eq (key_at join c) key)) [
        | inl same ↦
            let (at, message) = lookup-observe_self join key now c t e same h in
            let (n', period, step) = observe_entry-IsOpenStep now c e n in
            let later = announced-AreSpaced join key t' (observe_entry now c e).0 rest at n' in
            elim step [
              | inl (quiet, last) ↦
                  rw (message, quiet)
                    (subst (λ (p : ℤ × ℤ). AreSpaced p.0 p.1 (announced join key t' rest))
                      (ap₂ (λ x y. (x, y)) period last) later)
              | inr (spoken, last, spaced) ↦
                  rw (message, spoken, same)
                    (
                      spaced,
                      subst (λ (p : ℤ × ℤ). AreSpaced p.0 p.1 (announced join key t' rest))
                          (ap₂ (λ x y. (x, y)) period last) later,
                    )
            ]
        | inr other ↦
            rw (other, and_false (is_message (observe join now c t).1))
              (announced-AreSpaced join key t' e rest
                (rw (lookup-observe join key now c t, other) h) n)
      ]

  observe_entry_dismissed :
      (now : ℤ) (c : Candidate F) (e : Entry F)
      → e.state ≡ dismissed
      → e.dismiss_until ≡ none
      → ((observe_entry now c e).0.state ≡ dismissed)
        × ((observe_entry now c e).0.dismiss_until ≡ none)
        × (is_message (observe_entry now c e).1 ≡ false)
  unfolding observe_entry observe_by_state observe_dismissed
  observe_entry_dismissed now c e d n = rw (d, n) (refl, refl, refl)

  -- An entry that was dismissed without a deadline is not announced again, whatever is scanned.
  pub announced_dismissed :
      (join : String → String → String) (key : String) (t : Tracker F) (e : Entry F)
      (history : List Scan)
      → lookup key t.entries ≡ some e
      → e.state ≡ dismissed
      → e.dismiss_until ≡ none
      → announced join key t history ≡ []
  unfolding announced
  announced_dismissed join key t e [] h d n = refl
  announced_dismissed join key t e ((now, c) ∷ rest) h d n =
      let t' = (observe join now c t).0 in
      elim (Bool-cases (str_eq (key_at join c) key)) [
        | inl same ↦
            let (at, message) = lookup-observe_self join key now c t e same h in
            let (d', n', quiet) = observe_entry_dismissed now c e d n in
            rw (message, quiet)
              (announced_dismissed join key t' (observe_entry now c e).0 rest at d' n')
        | inr other ↦
            rw (other, and_false (is_message (observe join now c t).1))
              (announced_dismissed join key t' e rest
                (rw (lookup-observe join key now c t, other) h) d n)
      ]
