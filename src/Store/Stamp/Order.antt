-- ===== src/Store/Stamp/Order.antt =====
-- The order of stored times: a total preorder, right between seconds and wrong within one.
use slo_sentinel.Prelude.{ℕ, ◌+◌, ◌*◌, ◌/◌, ◌%◌, ◌<◌, ◌≡◌, refl, true, false, List, [], ◌∷◌, arith}
use slo_sentinel.Prelude.Int.{ℤ, pos, ltb_ℤ}
use slo_sentinel.Prelude.Text.{text_less}
use slo_sentinel.Store.Stamp.{whole_seconds, nanos, fraction_text, stamp_less}

text_less_cotrans :
    (a b c : List ℕ) → text_less a b ≡ false → text_less b c ≡ false → text_less a c ≡ false
unfolding text_less
text_less_cotrans [] [] c h k = k
text_less_cotrans [] (y ∷ b) c h k = cc
text_less_cotrans (x ∷ a) [] [] h k = refl
text_less_cotrans (x ∷ a) [] (z ∷ c) h k = cc
text_less_cotrans (x ∷ a) (y ∷ b) [] h k = refl
text_less_cotrans (x ∷ a) (y ∷ b) (z ∷ c) h k = ground (arith, text_less_cotrans a b c)

pub stamp_less_cotrans :
    (a b c : ℤ) → stamp_less a b ≡ false → stamp_less b c ≡ false → stamp_less a c ≡ false
unfolding stamp_less
stamp_less_cotrans a b c h k = ground (
  arith,
  text_less_cotrans (fraction_text (nanos a)) (fraction_text (nanos b)) (fraction_text (nanos c)),
)

-- Two times in different seconds stand in the order of their texts.
pub stamp_less-seconds :
    (a b : ℤ) → ltb_ℤ (whole_seconds a) (whole_seconds b) ≡ true → stamp_less a b ≡ true
unfolding stamp_less
stamp_less-seconds a b h = rw h

-- Within a second the order is wrong: a time on the whole second counts as later than every
-- other time of that second, which is in fact later.
pub stamp_less_whole :
    (s n : ℕ)
    → 0 < n
    → n < 1000000000
    → (stamp_less (pos (s * 1000000000 + n)) (pos (s * 1000000000)) ≡ true)
      × (stamp_less (pos (s * 1000000000)) (pos (s * 1000000000 + n)) ≡ false)
unfolding stamp_less text_less
stamp_less_whole s n h k =
    let e1 : (s * 1000000000 + n) / 1000000000 ≡ s = omega arith in
    let e2 : (s * 1000000000 + n) % 1000000000 ≡ n = omega arith in
    let e3 : s * 1000000000 / 1000000000 ≡ s = omega arith in
    let e4 : s * 1000000000 % 1000000000 ≡ 0 = omega arith in rw (e1, e2, e3, e4) (ground arith)
