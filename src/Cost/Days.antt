-- ===== src/Cost/Days.antt =====
-- internal/cost/cost.go `daysInMonth`, on civil dates of a zone in which all days are equally long.
-- The calendar is that of the time library.
use slo_sentinel.Prelude.{
  ℕ, suc, ◌+◌, ◌%◌, ◌≡◌, refl, inl, inr, Bool, true, false, ◌&&◌, ◌||◌, not, arith, ltb, leb, ◌==◌,
  if◌then◌else◌, Bool-cases,
}

-- A date by its parts; January is 1.
pub record Date : Type 0 where
  pub year : ℕ
  pub month : ℕ
  pub day : ℕ

abbrev pub is_leap : ℕ → Bool
is_leap y = y % 4 == 0 && (not (y % 100 == 0) || y % 400 == 0)

-- The number of days of a month of the calendar.
abbrev pub month_length : ℕ → ℕ → ℕ
month_length y m =
    if m == 2
    then (if is_leap y then 29 else 28)
    else if m == 4 || m == 6 || m == 9 || m == 11
    then 30
    else 31

-- The month after, as `(year, month)`.
abbrev pub next_month : ℕ → ℕ → ℕ × ℕ
next_month y m = if leb 12 m then (suc y, 1) else (y, suc m)

-- The month of `AddDate(0, 1, 0)`: a day that the next month does not have spills over into the one
-- after it.
pub month_of_add : Date → ℕ × ℕ
month_of_add d =
    let (y, m) = next_month d.year d.month in
    if ltb (month_length y m) d.day then next_month y m else (y, m)

-- The days from the first of month `m` to the first of month `(y', m')`, which is one or two later.
pub days_between : ℕ → ℕ → ℕ × ℕ → ℕ
days_between y m (y', m') =
    let (y1, m1) = next_month y m in
    if y1 == y' && m1 == m' then month_length y m else month_length y m + month_length y1 m1

-- `daysInMonth`.
pub days_in_month : Date → ℕ
days_in_month d = days_between d.year d.month (month_of_add d)

next_month_differs : (y m : ℕ) → (y == (next_month y m).0 && m == (next_month y m).1) ≡ false
next_month_differs y m = ground arith

==_self : (a : ℕ) → (a == a) ≡ true
==_self a = ground arith

days_between-next : (y m : ℕ) → days_between y m (next_month y m) ≡ month_length y m
unfolding days_between
days_between-next y m = rw (==_self (next_month y m).0, ==_self (next_month y m).1) refl

days_between-second :
    (y m : ℕ)
    → days_between y m (next_month (next_month y m).0 (next_month y m).1)
      ≡ month_length y m + month_length (next_month y m).0 (next_month y m).1
unfolding days_between
days_between-second y m = rw (next_month_differs (next_month y m).0 (next_month y m).1) refl

-- Whether the next month lacks the day.
abbrev pub spills : Date → Bool
spills d = ltb (month_length (next_month d.year d.month).0 (next_month d.year d.month).1) d.day

-- The days of the month are counted right on every day that the next month has too; on any other
-- day, the days of the next month are counted in as well.
pub days_in_month_lem :
    (d : Date)
    → days_in_month d ≡ (
        if spills d
        then month_length d.year d.month
          + month_length (next_month d.year d.month).0 (next_month d.year d.month).1
        else month_length d.year d.month)
unfolding days_in_month month_of_add
days_in_month_lem d = elim (Bool-cases (spills d)) [
  | inl e ↦ rw e (days_between-second d.year d.month)
  | inr e ↦ rw e (days_between-next d.year d.month)
]
