-- ===== src/Config/Loaded.antt =====
-- What the settings that were read satisfy.
use slo_sentinel.Prelude.{
  String, ◌≡◌, refl, sym, ap, ◌∙◌, subst, ◌⊎◌, inl, inr, Bool, true, false, ◌&&◌, not, none, some,
  arith, str_eq, eq_iff, Bool-cases, ok, fail_if, >>=-eq-ok, fail_if-eq-ok,
}
use slo_sentinel.Prelude.Int.{pos}
use slo_sentinel.Prelude.Dict.{Dict, lookup}
use slo_sentinel.Config.{
  Config, defaults, RawValue, Reply, absent, unreadable, content, is_positive, is_negative, apply,
  override_waste_interval, validate, checked, bad_retention, bad_waste_interval, bad_poll_interval,
  bad_log_format, set_positive, load_reply, load,
}

abbrev pub IsValid : Config → Type 0
IsValid c =
    (is_positive c.poll_interval_sec ≡ true)
    × ((c.log_format ≡ "json") ⊎ (c.log_format ≡ "text"))
    × (is_negative c.waste_scan_interval_sec ≡ false)
    × (is_negative c.predictions_retention_days ≡ false)

defaults-IsValid : IsValid defaults
unfolding is_positive is_negative
defaults-IsValid = (refl, inl refl, refl, refl)

log_format_of :
    (format : String)
    → (not (str_eq format "json") && not (str_eq format "text")) ≡ false
    → (format ≡ "json") ⊎ (format ≡ "text")
log_format_of format h = ground (arith, eq_iff format "json", eq_iff format "text")

not-false : (b : Bool) → not b ≡ false → b ≡ true
not-false true h = refl
not-false false h = cc

validate-IsValid : (c : Config) {u : Unit {0}} → validate c ≡ ok u → IsValid c
unfolding validate
validate-IsValid c h =
    let (_, h3, h4) =
      >>=-eq-ok _ (λ u. fail_if (is_negative c.predictions_retention_days) bad_retention) h in
    let (_, h2, r3) =
      >>=-eq-ok _ (λ u. fail_if (is_negative c.waste_scan_interval_sec) bad_waste_interval) h3 in
    let (_, h1, r2) =
      >>=-eq-ok (fail_if (not (is_positive c.poll_interval_sec)) bad_poll_interval) _ h2 in
    (
      not-false (is_positive c.poll_interval_sec)
          (fail_if-eq-ok (not (is_positive c.poll_interval_sec)) bad_poll_interval h1),
      log_format_of c.log_format (
          fail_if-eq-ok (not (str_eq c.log_format "json") && not (str_eq c.log_format "text"))
            bad_log_format r2),
      fail_if-eq-ok (is_negative c.waste_scan_interval_sec) bad_waste_interval r3,
      fail_if-eq-ok (is_negative c.predictions_retention_days) bad_retention h4,
    )

checked-IsValid : (c c' : Config) → checked c ≡ ok c' → IsValid c'
unfolding validate
checked-IsValid c c' h =
    let (_, valid, last) = >>=-eq-ok (validate c) (λ u. ok c) h in
    let same : c ≡ c' = cc in subst IsValid same (validate-IsValid c valid)

load_reply-IsValid : (r : Reply) (c : Config) → load_reply r ≡ ok c → IsValid c
load_reply-IsValid absent c h = let same : defaults ≡ c = cc in subst IsValid same defaults-IsValid
load_reply-IsValid unreadable c h = cc
load_reply-IsValid (content none over) c h = cc
load_reply-IsValid (content (some raw) none) c h = cc
load_reply-IsValid (content (some raw) (some over)) c h =
    checked-IsValid (override_waste_interval raw (apply defaults over)) c h

load_given :
    (files : String → Reply) (path : String)
    → str_eq path "" ≡ false
    → load_reply (files path) ≡ load files path
unfolding load
load_given files path given = rw given refl

-- Settings that are loaded, from a file or not, have a positive polling interval, a log format
-- that is one of the two, and no negative interval or retention.
pub load-IsValid :
    (files : String → Reply) (path : String) (c : Config) → load files path ≡ ok c → IsValid c
unfolding load
load-IsValid files path c h = elim (Bool-cases (str_eq path "")) [
  | inl none_given ↦
      let same : defaults ≡ c = ground (arith, none_given, h) in subst IsValid same defaults-IsValid
  | inr given ↦ load_reply-IsValid (files path) c (load_given files path given ∙ h)
]

-- Where a file does not set `waste_scan_interval_sec`, the retention it sets counts only if it is
-- positive: a file that asks for a retention of 0 days, which is to stop the pruning, keeps the
-- default of 90.
pub retention_ignored :
    (files : String → Reply) (path : String) (raw : Dict RawValue) (over c : Config)
    → str_eq path "" ≡ false
    → files path ≡ content (some raw) (some over)
    → lookup "waste_scan_interval_sec" raw ≡ none
    → is_positive over.predictions_retention_days ≡ false
    → load files path ≡ ok c
    → c.predictions_retention_days ≡ pos 90
unfolding load override_waste_interval set_positive apply
retention_ignored files path raw over c given file absent_key low h =
    let kept : set_positive (pos 90) over.predictions_retention_days ≡ pos 90 = rw low refl in
    let plain = override_waste_interval raw (apply defaults over) in
    let plain_eq : plain ≡ apply defaults over = rw absent_key refl in
    let loaded : checked plain ≡ ok c =
      ap load_reply (sym file) ∙ load_given files path given ∙ h in
    let (_, valid, last) = >>=-eq-ok (validate plain) (λ u. ok plain) loaded in
    let same : plain ≡ c = cc in ap (λ x. x.predictions_retention_days) (sym same ∙ plain_eq) ∙ kept
