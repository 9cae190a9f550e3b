-- ===== src/Prelude/Text.antt =====
-- Text as a list of code points where the program walks it.
use Prim.Native.Char.{code}
use slo_sentinel.Prelude.{
  ℕ, String, List, [], ◌∷◌, Bool, true, false, ◌||◌, ◌&&◌, ◌==◌, ltb, if◌then◌else◌,
}

-- The code points of a text. `String` has its own `[]` and `∷`.
abbrev pub codes : String → List ℕ
codes String.[] = []
codes (String.◌∷◌ c s) = code c ∷ codes s

abbrev pub is_empty {ℓ} : {A : Type ℓ} → List A → Bool
is_empty [] = true
is_empty (x ∷ xs) = false

-- `strings.TrimSpace` on ASCII text: blanks, tabs, line feeds, carriage returns and the like.
abbrev pub is_space : ℕ → Bool
is_space c = c == b' ' || c == 9 || c == 10 || c == 11 || c == 12 || c == 13

abbrev pub same_text : List ℕ → List ℕ → Bool
same_text [] [] = true
same_text [] (d ∷ ds) = false
same_text (c ∷ cs) [] = false
same_text (c ∷ cs) (d ∷ ds) = c == d && same_text cs ds

-- `strings.HasPrefix`.
abbrev pub has_prefix : List ℕ → List ℕ → Bool
has_prefix s [] = true
has_prefix [] (d ∷ ds) = false
has_prefix (c ∷ cs) (d ∷ ds) = c == d && has_prefix cs ds

-- The order of texts, byte by byte.
unfoldable pub text_less : List ℕ → List ℕ → Bool
text_less [] [] = false
text_less [] (d ∷ ds) = true
text_less (c ∷ cs) [] = false
text_less (c ∷ cs) (d ∷ ds) =
    let rest = text_less cs ds in if ltb c d then true else if ltb d c then false else rest

-- `strings.Split` at a byte.
abbrev pub put_first : ℕ → List (List ℕ) → List (List ℕ)
put_first c [] = (c ∷ []) ∷ []
put_first c (p ∷ ps) = (c ∷ p) ∷ ps

unfoldable pub split_on : ℕ → List ℕ → List (List ℕ)
split_on sep [] = [] ∷ []
split_on sep (c ∷ s) = let rest = split_on sep s in if c == sep then [] ∷ rest else put_first c rest
