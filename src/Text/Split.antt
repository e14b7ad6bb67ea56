-- ===== src/Text/Split.antt =====
-- Python's searches in a text and the ways to split it.
use pumo_bio_metric.Prelude.{
  ℕ, Bool, ◌||◌, List, [], ◌∷◌, map, filter_by, not, ◌==◌, if◌then◌else◌, Option, none, some,
}
use pumo_bio_metric.Text.{Text, is_empty, is_space, startswith, strip}

-- part in s
unfoldable pub includes : Text → Text → Bool
includes part [] = is_empty part
includes part (c ∷ s) = startswith (c ∷ s) part || includes part s

-- s.replace(a, b) for single characters
unfoldable pub replace_code : ℕ → ℕ → Text → Text
replace_code a b [] = []
replace_code a b (c ∷ s) = (if c == a then b else c) ∷ replace_code a b s

abbrev pub add_first : ℕ → List Text → List Text
add_first c [] = (c ∷ []) ∷ []
add_first c (part ∷ parts) = (c ∷ part) ∷ parts

-- s.split(a) for a single character
unfoldable pub split_on : ℕ → Text → List Text
split_on a [] = [] ∷ []
split_on a (c ∷ s) = let rest = split_on a s in if c == a then [] ∷ rest else add_first c rest

-- The text with each white space character made a blank, so that `split()` is a split on blanks
-- that drops the empty parts.
unfoldable pub blanked : Text → Text
blanked [] = []
blanked (c ∷ s) = (if is_space c then 32 else c) ∷ blanked s

-- s.split()
unfoldable pub words : Text → List Text
unfolding blanked split_on
words s = filter_by (λ w. not (is_empty w)) (split_on 32 (blanked s))

abbrev pub put_before : ℕ → Option (Text × Text) → Option (Text × Text)
put_before c none = none
put_before c (some (k, v)) = some (c ∷ k, v)

-- s.split(a, 1), when `a` is in `s`
unfoldable pub cut : ℕ → Text → Option (Text × Text)
cut a [] = none
cut a (c ∷ s) = let rest = cut a s in if c == a then some ([], s) else put_before c rest

-- body.replace("\r", "\n").split("\n"), each line without surrounding blanks, without empty lines
unfoldable pub body_lines : Text → List Text
unfolding replace_code split_on
body_lines body =
    filter_by (λ l. not (is_empty l)) (map strip (split_on 10 (replace_code 13 10 body)))
