-- ===== src/Promdur/RoundTrip.antt =====
-- Reading back what is written as numbers with units.
use slo_sentinel.Prelude.{ℕ, ◌<◌, ◌^◌, ◌≡◌, true, false, some, List, [], ◌∷◌, ◌++◌}
use slo_sentinel.Prelude.Int.{ℤ, pos, negsuc, ◌+ℤ◌}
use slo_sentinel.Prelude.Float.{Float}
use slo_sentinel.Prelude.Text.{is_space}
use slo_sentinel.Promdur.{is_number_char}

abbrev pub IsInt64 : ℤ → Type 0
IsInt64 (pos n) = n < 2 ^ 63
IsInt64 (negsuc n) = n < 2 ^ 63

module _ ⦃fl : Float⦄ where
  open fl use {F, less, decimal, times, of_int, to_int, parse_float}

  -- A number as it is written, its value and its unit.
  pub record Part : Type 0 where
    pub first : ℕ
    pub digits : List ℕ
    pub value : F
    pub unit : ℕ
    pub length : ℤ

  abbrev pub AllNumber : List ℕ → Type 0
  AllNumber [] = Unit {0}
  AllNumber (c ∷ cs) = (is_number_char c ≡ true) × AllNumber cs

  -- How long `n` units are: 365 days of 24 hours in a year and 7 in a week, 60 minutes in an hour and
  -- 60 seconds in a minute, in nanoseconds.
  pub data IsLength (n : F) : ℕ → ℤ → Type 0 where
    years : IsLength n b'y' (
        to_int
          (times (times (times n (decimal 365 0)) (decimal 24 0)) (of_int (pos 3600000000000))))
    weeks :
        IsLength n b'w' (
          to_int
            (times (times (times n (decimal 7 0)) (decimal 24 0)) (of_int (pos 3600000000000))))
    days : IsLength n b'd' (to_int (times (times n (decimal 24 0)) (of_int (pos 3600000000000))))
    hours : IsLength n b'h' (to_int (times n (of_int (pos 3600000000000))))
    minutes : IsLength n b'm' (to_int (times n (of_int (pos 60000000000))))
    seconds : IsLength n b's' (to_int (times n (of_int (pos 1000000000))))

  -- The text is a number that `ParseFloat` reads as `value`, which is not negative, and the length is
  -- that of so many units.
  pub record IsPart (p : Part) : Type 0 where
    pub is_number : AllNumber (p.first ∷ p.digits)
    pub reads : parse_float (p.first ∷ p.digits) ≡ some p.value
    pub not_negative : less p.value (decimal 0 0) ≡ false
    pub has_unit : IsLength p.value p.unit p.length

  abbrev pub AreParts : List Part → Type 0
  AreParts [] = Unit {0}
  AreParts (p ∷ ps) = IsPart p × AreParts ps

  abbrev pub written : List Part → List ℕ
  written [] = []
  written (p ∷ ps) = (p.first ∷ p.digits) ++ p.unit ∷ written ps

  abbrev pub total_from : ℤ → List Part → ℤ
  total_from t [] = t
  total_from t (p ∷ ps) = total_from (t +ℤ p.length) ps

  -- Every sum from the first parts on is an int64.
  abbrev pub AllInt64 : ℤ → List Part → Type 0
  AllInt64 t [] = Unit {0}
  AllInt64 t (p ∷ ps) = IsInt64 (t +ℤ p.length) × AllInt64 (t +ℤ p.length) ps

  -- The text ends in a character that is no space.
  abbrev EndsInk : List ℕ → Type 0
  EndsInk s = (front : List ℕ) × (c : ℕ) × (s ≡ front ++ c ∷ []) × (is_space c ≡ false)
