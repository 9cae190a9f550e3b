-- ===== src/Catalog/Namespaces/Splits.antt =====
-- A list of names that is written with commas is read back.
use slo_sentinel.Prelude.{
  ℕ, zero, suc, ◌+◌, ◌-◌, ◌*◌, ◌/◌, ◌%◌, ◌^◌, ◌≤◌, ◌<◌, String, ◌≡◌, refl, sym, ap, ◌∙◌, subst, ◌≢◌,
  ◌↔◌, ◌⊎◌, inl, inr, Bool, true, false, ◌&&◌, ◌||◌, not, Option, none, some, List, [], ◌∷◌, ◌++◌,
  map, arith, str_eq, eq_iff, ltb, leb, ◌==◌, if◌then◌else◌, ltb→lt, lt→ltb, leb→le, ==_iff,
  Bool-cases, Option-cases, length, get_elem?, get_or, take, drop, replicate, length-append, Result,
  ok, err, ◌>>=◌, ◌>>◌, fail_if, >>=-eq-ok, Result-cases, fail_if-eq-ok,
}
use slo_sentinel.Prelude.Text.{is_empty, split_on}
use slo_sentinel.Promdur.{trim_space}
use slo_sentinel.Catalog.Namespaces.{kept_part, trimmed_parts, split_comma}

abbrev pub has_no : ℕ → List ℕ → Bool
has_no sep [] = true
has_no sep (c ∷ s) = let rest = has_no sep s in if c == sep then false else rest

-- A name: not empty, without a comma, and without blanks at its ends.
abbrev pub IsName : List ℕ → Type 0
IsName p = (is_empty p ≡ false) × (has_no b',' p ≡ true) × (trim_space p ≡ p)

abbrev pub AreNames : List (List ℕ) → Type 0
AreNames [] = Unit {0}
AreNames (p ∷ ps) = IsName p × AreNames ps

abbrev pub join : List (List ℕ) → List ℕ
join [] = []
join (p ∷ []) = p
join (p ∷ q ∷ ps) = p ++ b',' ∷ join (q ∷ ps)

split_on-last : (sep : ℕ) (p : List ℕ) → has_no sep p ≡ true → split_on sep p ≡ p ∷ []
unfolding split_on
split_on-last sep [] h = refl
split_on-last sep (c ∷ p) h = ground (arith, split_on-last sep p, h)

split_on-append :
    (sep : ℕ) (p s : List ℕ)
    → has_no sep p ≡ true
    → split_on sep (p ++ sep ∷ s) ≡ p ∷ split_on sep s
unfolding split_on
split_on-append sep [] s h = ground arith
split_on-append sep (c ∷ p) s h = ground (arith, split_on-append sep p s, h)

kept_name :
    (p : List ℕ) (rest : List (List ℕ)) → IsName p → kept_part (trim_space p) rest ≡ p ∷ rest
kept_name p rest (e, n, t) = rw (t, e) refl

-- Names that are joined by commas are the parts that `splitComma` finds, in their order.
pub split_comma-join : (ps : List (List ℕ)) → AreNames ps → split_comma (join ps) ≡ ps
unfolding split_comma trimmed_parts slo_sentinel.Prelude.Text.split_on
    slo_sentinel.Promdur.trim_space slo_sentinel.Promdur.drop_spaces
split_comma-join [] a = refl
split_comma-join (p ∷ []) a = ap trimmed_parts (split_on-last b',' p a.0.1) ∙ kept_name p [] a.0
split_comma-join (p ∷ q ∷ ps) a =
    ap trimmed_parts (split_on-append b',' p (join (q ∷ ps)) a.0.1)
    ∙ kept_name p (split_comma (join (q ∷ ps))) a.0
    ∙ ap (◌∷◌ p) (split_comma-join (q ∷ ps) a.1)
