-- ===== src/Text.antt =====
-- Python's text, as the list of its code points. `strip`, `lower`, `upper`, `isdigit` and `int`
-- are those of ASCII text: what the readers send and what identifies them is ASCII.
pub mod Numbers
pub mod Split
use Prim.Native.Char.{code}
use pumo_bio_metric.Prelude.{
  ℕ, ◌+◌, ◌-◌, ◌≡◌, refl, ap, ◌↔◌, Bool, true, false, not, ◌&&◌, ◌||◌, List, [], ◌∷◌, ◌++◌, map,
  String, arith, ◌==◌, leb, if◌then◌else◌, Option, none, some, all,
}

abbrev pub Text : Type 0
Text = List ℕ

abbrev pub codes : String → Text
codes String.[] = []
codes (String.◌∷◌ c s) = code c ∷ codes s

-- a == b
unfoldable pub same : Text → Text → Bool
same [] [] = true
same (a ∷ s) (b ∷ t) = a == b && same s t
same _ _ = false

pub same_iff : (s t : Text) → (same s t ≡ true) ↔ (s ≡ t)
unfolding same
same_iff [] [] = ground arith
same_iff [] (b ∷ t) = ground arith
same_iff (a ∷ s) [] = ground arith
same_iff (a ∷ s) (b ∷ t) = ground (arith, same_iff s t)

pub same_refl : (s : Text) → same s s ≡ true
same_refl s = (same_iff s s).1 refl

-- not s
abbrev pub is_empty : Text → Bool
is_empty [] = true
is_empty (_ ∷ _) = false

unfoldable pub is_space : ℕ → Bool
is_space c = c == 32 || (leb 9 c && leb c 13) || (leb 28 c && leb c 31)

unfoldable pub lstrip : Text → Text
unfolding is_space
lstrip [] = []
lstrip (c ∷ s) = let rest = lstrip s in if is_space c then rest else c ∷ s

unfoldable pub rstrip : Text → Text
unfolding is_space
rstrip [] = []
rstrip (c ∷ s) = let rest = rstrip s in if is_empty rest && is_space c then [] else c ∷ rest

-- s.strip()
unfoldable pub strip : Text → Text
unfolding lstrip rstrip
strip s = rstrip (lstrip s)

unfoldable pub lower_code : ℕ → ℕ
lower_code c = if leb b'A' c && leb c b'Z' then c + 32 else c

unfoldable pub upper_code : ℕ → ℕ
upper_code c = if leb b'a' c && leb c b'z' then c - 32 else c

-- s.lower()
unfoldable pub lower : Text → Text
unfolding lower_code
lower = map lower_code

-- s.upper()
unfoldable pub upper : Text → Text
unfolding upper_code
upper = map upper_code

unfoldable pub is_digit : ℕ → Bool
is_digit c = leb b'0' c && leb c b'9'

-- s.isdigit()
unfoldable pub isdigit : Text → Bool
unfolding is_digit all
isdigit s = not (is_empty s) && all is_digit s

-- c in s
unfoldable pub has_code : ℕ → Text → Bool
has_code c [] = false
has_code c (d ∷ s) = c == d || has_code c s

-- s.startswith(prefix)
unfoldable pub startswith : Text → Text → Bool
startswith s [] = true
startswith [] (p ∷ ps) = false
startswith (c ∷ s) (p ∷ ps) = c == p && startswith s ps
