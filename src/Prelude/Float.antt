-- ===== src/Prelude/Float.antt =====
-- Go's float64 as an interface: a type with the operations that the program uses. Nothing is
-- assumed of the operations; a theorem that needs a law of IEEE arithmetic takes it by name.
use slo_sentinel.Prelude.{
  Option, none, some, ◌-◌, ◌&&◌, List, [], ◌∷◌, ℕ, ◌+◌, ◌*◌, ◌/◌, ◌^◌, ◌≡◌, Bool, true, false,
  arith, leb, ◌==◌, if◌then◌else◌,
}
use slo_sentinel.Prelude.Int.{ℤ, pos, pos_part, neg_part, ltb_ℤ, ◌+ℤ◌, ◌-ℤ◌, ◌*ℤ◌, ◌/ℤ◌}

pub record Float : Type 1 where
  pub F : Type 0
  pub plus : F → F → F
  pub minus : F → F → F
  pub times : F → F → F
  pub over : F → F → F
  -- `<`, `<=` and `==`; Go's `a > b` is `less b a`.
  pub less : F → F → Bool
  pub at_most : F → F → Bool
  pub same : F → F → Bool
  -- The constant m / 10 ^ k.
  pub decimal : ℕ → ℕ → F
  -- `float64(n)`, and the conversion to an int64 (a `time.Duration`).
  pub of_int : ℤ → F
  pub to_int : F → ℤ
  pub abs : F → F
  pub round : F → F
  pub ceil : F → F
  -- `strconv.ParseFloat` on the code points of a text; `none` is an error.
  pub parse_float : List ℕ → Option F
  -- `sort.Float64s`.
  pub sort : List F → List F

-- What IEEE 754 says of `<` on values that are not NaN, for the values that satisfy `Ok`.
pub record IsOrdered (fl : Float) (Ok : fl.F → Type 0) : Type 0 where
  pub irrefl : (a : fl.F) → fl.less a a ≡ false
  pub trans : (a b c : fl.F) → fl.less a b ≡ true → fl.less b c ≡ true → fl.less a c ≡ true
  pub cotrans :
      (a b c : fl.F)
      → Ok a
      → Ok b
      → Ok c
      → fl.less a b ≡ false
      → fl.less b c ≡ false
      → fl.less a c ≡ false

pub insert_ℤ : ℤ → List ℤ → List ℤ
insert_ℤ x [] = x ∷ []
insert_ℤ x (y ∷ ys) = if ltb_ℤ x y then x ∷ y ∷ ys else y ∷ insert_ℤ x ys

abbrev pub sort_ℤ : List ℤ → List ℤ
unfolding insert_ℤ
sort_ℤ [] = []
sort_ℤ (x ∷ xs) = insert_ℤ x (sort_ℤ xs)

abbrev pub digits_value : List ℕ → ℕ → Option ℤ
digits_value [] n = some (pos (n * 1000000))
digits_value (c ∷ cs) n =
    let rest = digits_value cs (n * 10 + (c - b'0')) in
    if leb b'0' c && leb c b'9' then rest else none

-- An instance that runs: fixed point numbers in millionths.
abbrev pub one_unit : ℕ
one_unit = 1000000

abbrev pub fixed : Float
fixed = record {
  F = ℤ;
  plus = λ a b. a +ℤ b;
  minus = λ a b. a -ℤ b;
  times = λ a b. (a *ℤ b) /ℤ pos one_unit;
  over = λ a b. (a *ℤ pos one_unit) /ℤ b;
  less = ltb_ℤ;
  at_most = λ a b. leb (pos_part a + neg_part b) (pos_part b + neg_part a);
  same = λ a b. (pos_part a + neg_part b) == (pos_part b + neg_part a);
  decimal = λ m k. pos (m * one_unit / 10 ^ k);
  of_int = λ n. n *ℤ pos one_unit;
  to_int = λ a. a /ℤ pos one_unit;
  abs = λ a. if ltb_ℤ a (pos 0) then pos 0 -ℤ a else a;
  round = λ a.
      (if ltb_ℤ a (pos 0)
        then (a -ℤ pos 500000) /ℤ pos one_unit
        else (a +ℤ pos 500000) /ℤ pos one_unit)
      *ℤ pos one_unit;
  ceil = λ a.
      (if ltb_ℤ a (pos 0) then a /ℤ pos one_unit else (a +ℤ pos 999999) /ℤ pos one_unit)
      *ℤ pos one_unit;
  parse_float = λ cs. digits_value cs 0;
  sort = sort_ℤ;
}

pub fixed-IsOrdered : IsOrdered fixed (λ _. Unit {0})
fixed-IsOrdered = record {
  irrefl = λ a. ground arith;
  trans = λ a b c. ground arith;
  cotrans = λ a b c. ground arith;
}
