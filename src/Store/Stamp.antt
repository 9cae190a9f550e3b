-- ===== src/Store/Stamp.antt =====
-- Times in the database are texts in the layout RFC3339Nano, in UTC, and SQLite compares them as
-- texts. The date and time of day have a fixed width, so their order is that of the whole seconds;
-- the fraction has its trailing zeros removed and a `Z` behind it.
pub mod Order
use slo_sentinel.Prelude.{
  ℕ, zero, suc, ◌+◌, ◌-◌, ◌/◌, ◌%◌, ◌^◌, Bool, true, false, List, [], ◌∷◌, ◌++◌, arith, ltb, ◌==◌,
  if◌then◌else◌,
}
use slo_sentinel.Prelude.Text.{text_less}
use slo_sentinel.Prelude.Int.{ℤ, pos, negsuc, ltb_ℤ}

-- Nanoseconds from the epoch as whole seconds and the rest.
abbrev pub whole_seconds : ℤ → ℤ
whole_seconds (pos n) = pos (n / 1000000000)
whole_seconds (negsuc n) = negsuc (n / 1000000000)

abbrev pub nanos : ℤ → ℕ
nanos (pos n) = n % 1000000000
nanos (negsuc n) = 999999999 - n % 1000000000

-- `width` decimal digits of `n`, with the zeros at the end removed.
pub fraction_digits : ℕ → ℕ → List ℕ
fraction_digits zero n = []
fraction_digits (suc width) n =
    if n == 0 then [] else (b'0' + n / 10 ^ width) ∷ fraction_digits width (n % 10 ^ width)

abbrev pub fraction_text : ℕ → List ℕ
fraction_text n = if n == 0 then b'Z' ∷ [] else b'.' ∷ (fraction_digits 9 n ++ b'Z' ∷ [])

-- `a < b` between two stored times.
unfoldable pub stamp_less : ℤ → ℤ → Bool
stamp_less a b =
    if ltb_ℤ (whole_seconds a) (whole_seconds b)
    then true
    else if ltb_ℤ (whole_seconds b) (whole_seconds a)
    then false
    else text_less (fraction_text (nanos a)) (fraction_text (nanos b))
