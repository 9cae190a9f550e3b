-- ===== src/Pricing/Skus/Encoding.antt =====
-- `popEncode` can be undone, and is not the identity on reserved bytes.
use slo_sentinel.Prelude.{
  ℕ, suc, ◌+◌, ◌-◌, ◌*◌, ◌/◌, ◌%◌, ◌≤◌, ◌<◌, ◌≡◌, refl, sym, ap, ◌∙◌, ◌≢◌, ◌↔◌, ◌⊎◌, inl, inr, true,
  false, List, [], ◌∷◌, arith, leb, ◌==◌, if◌then◌else◌, Bool-cases, length,
}
use slo_sentinel.Pricing.Skus.{is_unreserved, hex_digit, pop_encode}

abbrev pub hex_value : ℕ → ℕ
hex_value c = if leb c b'9' then c - b'0' else 10 + (c - b'A')

-- What a server does to a query value: `%XY` is the byte with that number.
unfoldable pub percent_decode : List ℕ → List ℕ
percent_decode [] = []
percent_decode (c ∷ []) = c ∷ []
percent_decode (c ∷ d ∷ []) = c ∷ d ∷ []
percent_decode (c ∷ d ∷ e ∷ s) =
    let after = percent_decode s in
    let next = percent_decode (d ∷ e ∷ s) in
    if c == b'%' then (hex_value d * 16 + hex_value e) ∷ after else c ∷ next

abbrev pub AreBytes : List ℕ → Type 0
AreBytes [] = Unit {0}
AreBytes (c ∷ s) = (c < 256) × AreBytes s

-- The letters, the digits and `-`, `_`, `.` and `~`.
abbrev pub IsUnreserved : ℕ → Type 0
IsUnreserved c =
    ((b'A' ≤ c) × (c ≤ b'Z'))
    ⊎ ((b'a' ≤ c) × (c ≤ b'z'))
    ⊎ ((b'0' ≤ c) × (c ≤ b'9'))
    ⊎ (c ≡ b'-')
    ⊎ (c ≡ b'_')
    ⊎ (c ≡ b'.')
    ⊎ (c ≡ b'~')

is_unreserved-IsUnreserved : (c : ℕ) → is_unreserved c ≡ true → IsUnreserved c
is_unreserved-IsUnreserved c h = ground (arith, h)

IsUnreserved-is_unreserved : (c : ℕ) → IsUnreserved c → is_unreserved c ≡ true
IsUnreserved-is_unreserved c h = ground (arith, h)

abbrev pub AreUnreserved : List ℕ → Type 0
AreUnreserved [] = Unit {0}
AreUnreserved (c ∷ s) = IsUnreserved c × AreUnreserved s

percent_decode-short : (c : ℕ) → percent_decode (c ∷ []) ≡ c ∷ []
unfolding percent_decode
percent_decode-short c = refl

percent_decode-plain :
    (c : ℕ) (s : List ℕ) → (c == b'%') ≡ false → percent_decode (c ∷ s) ≡ c ∷ percent_decode s
unfolding percent_decode
percent_decode-plain c [] h = refl
percent_decode-plain c (d ∷ []) h = refl
percent_decode-plain c (d ∷ e ∷ s) h = rw h refl

hex_value-hex_digit : (n : ℕ) → n < 16 → hex_value (hex_digit n) ≡ n
hex_value-hex_digit n h = ground arith

byte_of_hex :
    (c : ℕ) → c < 256 → hex_value (hex_digit (c / 16)) * 16 + hex_value (hex_digit (c % 16)) ≡ c
byte_of_hex c h =
    rw (hex_value-hex_digit (c / 16) (omega arith), hex_value-hex_digit (c % 16) (omega arith))
      (omega arith)

percent_decode-pop_encode : (s : List ℕ) → AreBytes s → percent_decode (pop_encode s) ≡ s
unfolding pop_encode percent_decode
percent_decode-pop_encode [] h = refl
percent_decode-pop_encode (c ∷ s) h = elim (Bool-cases (is_unreserved c)) [
  | inl e ↦ rw e (
      percent_decode-plain c (pop_encode s) (ground (arith, e))
      ∙ ap (◌∷◌ c) (percent_decode-pop_encode s h.1))
  | inr e ↦ rw e (rw (byte_of_hex c h.0, percent_decode-pop_encode s h.1) refl)
]

length-pop_encode : (s : List ℕ) → length s ≤ length (pop_encode s)
unfolding pop_encode
length-pop_encode [] = omega arith
length-pop_encode (c ∷ s) = ground (arith, length-pop_encode s)

pop_encode-reserved : (c : ℕ) (s : List ℕ) → is_unreserved c ≡ false → pop_encode (c ∷ s) ≢ c ∷ s
unfolding pop_encode
pop_encode-reserved c s e h =
    let lengths : length (pop_encode (c ∷ s)) ≡ suc (length s) = ap length h in
    let longer : length (pop_encode (c ∷ s)) ≡ suc (suc (suc (length (pop_encode s)))) =
      rw e refl in
    omega (arith, length-pop_encode s, lengths, longer)

fixed-AreUnreserved : (s : List ℕ) → pop_encode s ≡ s → AreUnreserved s
unfolding pop_encode
fixed-AreUnreserved [] h = tt
fixed-AreUnreserved (c ∷ s) h = elim (Bool-cases (is_unreserved c)) [
  | inl e ↦
      (let same : pop_encode (c ∷ s) ≡ c ∷ pop_encode s = rw e refl in
        let tails : pop_encode s ≡ s = cc in
        (is_unreserved-IsUnreserved c e, fixed-AreUnreserved s tails))
  | inr e ↦ elim (pop_encode-reserved c s e h) [ ]
]

AreUnreserved-fixed : (s : List ℕ) → AreUnreserved s → pop_encode s ≡ s
unfolding pop_encode
AreUnreserved-fixed [] h = refl
AreUnreserved-fixed (c ∷ s) h =
    rw (IsUnreserved-is_unreserved c h.0) (ap (◌∷◌ c) (AreUnreserved-fixed s h.1))

-- A value of bytes that is encoded as `rpcSign` does is what a server decodes. But the values go
-- through `url.Values.Encode` as well, which any decoding undoes once: then the server has the value
-- that was signed exactly where all its bytes are letters, digits or one of `-_.~`.
pub pop_encode_escaped :
    (escape unescape : List ℕ → List ℕ)
    → ((t : List ℕ) → unescape (escape t) ≡ t)
    → (s : List ℕ) → AreBytes s
    → (percent_decode (pop_encode s) ≡ s)
      × ((unescape (escape (pop_encode s)) ≡ s) ↔ AreUnreserved s)
pop_encode_escaped escape unescape undone s bytes =
    let once = undone (pop_encode s) in
    (
      percent_decode-pop_encode s bytes,
      (λ e. fixed-AreUnreserved s (sym once ∙ e), λ a. once ∙ AreUnreserved-fixed s a),
    )
