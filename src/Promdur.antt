-- ===== src/Promdur.antt =====
-- internal/promdur/promdur.go: durations in the style of Prometheus, such as 72h, 14d and 2w. What a
-- conversion to int64 gives is `to_int`, whose range is the machine's.
pub mod RoundTrip
use slo_sentinel.Prelude.{
  ℕ, ◌-◌, ◌%◌, ◌^◌, String, ltb, Bool, ◌&&◌, ◌||◌, Option, none, some, List, [], ◌∷◌, ◌++◌, leb,
  ◌==◌, if◌then◌else◌,
}
use slo_sentinel.Prelude.Int.{ℤ, pos, negsuc, ◌+ℤ◌}
use slo_sentinel.Prelude.Float.{Float}
use slo_sentinel.Prelude.Text.{codes, is_empty, is_space}
use mathlib.Core.List.{reverse}

-- `strings.TrimSpace`.
unfoldable pub drop_spaces : List ℕ → List ℕ
drop_spaces [] = []
drop_spaces (c ∷ cs) = if is_space c then drop_spaces cs else c ∷ cs

unfoldable pub trim_space : List ℕ → List ℕ
unfolding drop_spaces
trim_space cs = reverse (drop_spaces (reverse (drop_spaces cs)))

-- A digit or the point.
unfoldable pub is_number_char : ℕ → Bool
is_number_char ch = leb b'0' ch && leb ch b'9' || ch == b'.'

-- What a sum of int64 leaves: it wraps around at 2 ^ 63.
unfoldable pub wrap_int64 : ℤ → ℤ
wrap_int64 (pos n) = let m = n % 2 ^ 64 in if ltb m (2 ^ 63) then pos m else negsuc (2 ^ 64 - 1 - m)
wrap_int64 (negsuc n) =
    let m = n % 2 ^ 64 in if ltb m (2 ^ 63) then negsuc m else pos (2 ^ 64 - 1 - m)

module _ ⦃fl : Float⦄ where
  open fl use {F, times, less, decimal, of_int, to_int, parse_float}

  -- The length of `n` units, for a unit that `flush` knows.
  unfoldable pub unit_length : ℕ → F → Option ℤ
  unit_length unit n =
      let hours = of_int (pos 3600000000000) in
      if unit == b'y'
      then some (to_int (times (times (times n (decimal 365 0)) (decimal 24 0)) hours))
      else if unit == b'w'
      then some (to_int (times (times (times n (decimal 7 0)) (decimal 24 0)) hours))
      else if unit == b'd'
      then some (to_int (times (times n (decimal 24 0)) hours))
      else if unit == b'h'
      then some (to_int (times n hours))
      else if unit == b'm'
      then some (to_int (times n (of_int (pos 60000000000))))
      else if unit == b's'
      then some (to_int (times n (of_int (pos 1000000000))))
      else none

  abbrev pub add_to : ℤ → Option ℤ → Option ℤ
  add_to total none = none
  add_to total (some d) = some (wrap_int64 (total +ℤ d))

  abbrev pub flush_number : ℕ → ℤ → Option F → Option ℤ
  flush_number unit total none = none
  flush_number unit total (some n) =
      if less n (decimal 0 0) then none else add_to total (unit_length unit n)

  -- `flush`: the new total, or `none` where it returns false.
  pub flush : ℕ → List ℕ → ℤ → Option ℤ
  flush unit [] total = none
  flush unit (c ∷ num) total = flush_number unit total (parse_float (c ∷ num))

  -- What is left at the end is a number of seconds.
  abbrev pub finish_number : ℤ → Option F → ℤ
  finish_number total none = pos 0
  finish_number total (some n) = wrap_int64 (total +ℤ to_int (times n (of_int (pos 1000000000))))

  pub finish : List ℕ → ℤ → ℤ
  finish [] total = total
  finish (c ∷ num) total = finish_number total (parse_float (c ∷ num))

  -- `return 0` where `flush` fails.
  abbrev pub or_zero : Option ℤ → (ℤ → ℤ) → ℤ
  or_zero none rest = pos 0
  or_zero (some total) rest = rest total

  -- The loop over the runes: `num` is the number being read.
  pub parse_loop : List ℕ → List ℕ → ℤ → ℤ
  parse_loop [] num total = finish num total
  parse_loop (ch ∷ s) num total =
      let more = parse_loop s (num ++ ch ∷ []) total in
      let rest = λ (t : ℤ). parse_loop s [] t in
      if is_number_char ch then more else or_zero (flush ch num total) rest

  pub parse_codes : List ℕ → ℤ
  parse_codes s = let s' = trim_space s in if is_empty s' then pos 0 else parse_loop s' [] (pos 0)

  pub parse : String → ℤ
  parse s = parse_codes (codes s)
