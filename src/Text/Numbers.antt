-- ===== src/Text/Numbers.antt =====
-- `int(text)` and `str(number)`, and that the first undoes the second.
use pumo_bio_metric.Prelude.{
  ℕ, zero, suc, ◌+◌, ◌-◌, ◌*◌, ◌/◌, ◌%◌, ◌<◌, ◌≡◌, refl, ◌∙◌, ap, Bool, true, false, ◌&&◌, [], ◌∷◌,
  ◌++◌, arith, ◌==◌, ltb, if◌then◌else◌, Option, none, some, Bool-cases, inl, inr, all,
}
use pumo_bio_metric.Text.{Text, is_digit, strip, lstrip, rstrip}
use mathlib.Core.Option

-- Python's integers. `negsuc n` is -(n + 1).
pub data ℤ : Type 0 where
  pos : ℕ → ℤ
  negsuc : ℕ → ℤ

abbrev pub neg : ℕ → ℤ
neg zero = pos 0
neg (suc n) = negsuc n

abbrev pub same_ℤ : ℤ → ℤ → Bool
same_ℤ (pos a) (pos b) = a == b
same_ℤ (negsuc a) (negsuc b) = a == b
same_ℤ _ _ = false

-- The digits of a number, single underscores between them allowed. The flag says that a digit came
-- just before.
unfoldable pub digits_value : Text → ℕ → Bool → Option ℕ
unfolding is_digit
digits_value [] acc after = if after then some acc else none
digits_value (c ∷ s) acc after =
    let next = digits_value s (acc * 10 + (c - 48)) true in
    let skip = digits_value s acc false in
    if is_digit c then next else if c == b'_' && after then skip else none

unfoldable pub signed_value : Text → Option ℤ
unfolding digits_value
signed_value [] = none
signed_value (c ∷ s) =
    if c == b'-'
    then Option.map neg (digits_value s 0 false)
    else if c == b'+'
    then Option.map pos (digits_value s 0 false)
    else Option.map pos (digits_value (c ∷ s) 0 false)

-- `int(s)`, with `none` for the `ValueError`
unfoldable pub int : Text → Option ℤ
unfolding strip signed_value
int s = signed_value (strip s)

-- The decimal digits, by fuel: a number is more than its digits.
unfoldable pub digits : ℕ → ℕ → Text
digits zero n = []
digits (suc f) n =
    let more = digits f (n / 10) ++ ((48 + n % 10) ∷ []) in if ltb n 10 then (48 + n) ∷ [] else more

-- `str(n)`
unfoldable pub str : ℕ → Text
unfolding digits
str n = digits (suc n) n

-- `is_digit` of every character
AllDigits : Text → Type 0
AllDigits s = all is_digit s ≡ true

str_1024 : str 1024 ≡ 49 ∷ 48 ∷ 50 ∷ 52 ∷ []
unfolding str
str_1024 = refl

int_minus_12 : int (32 ∷ 45 ∷ 49 ∷ 95 ∷ 50 ∷ 32 ∷ []) ≡ some (negsuc 11)
unfolding int
int_minus_12 = refl

-- A digit at the end of a text of digits is one more step of the value.
digits_value-snoc :
    (s : Text) (d acc v : ℕ) (after : Bool)
    → d < 10
    → digits_value s acc after ≡ some v
    → digits_value (s ++ ((48 + d) ∷ [])) acc after ≡ some (v * 10 + d)
unfolding digits_value
digits_value-snoc [] d acc v after h e = ground arith
digits_value-snoc (c ∷ s) d acc v after h e = ground (
  arith,
  digits_value-snoc s d (acc * 10 + (c - 48)) v true h,
  digits_value-snoc s d acc v false h,
)

digits-value : (f n : ℕ) → n < f → digits_value (digits f n) 0 false ≡ some n
unfolding digits
digits-value zero n h = elim h [ ]
digits-value (suc f) n h = elim (Bool-cases (ltb n 10)) [
  | inl small ↦ rw small (unfold digits_value in ground arith)
  | inr large ↦ rw large (
      digits_value-snoc (digits f (n / 10)) (n % 10) 0 (n / 10) false (omega arith)
        (digits-value f (n / 10) (ground arith))
      ∙ ap some (omega arith))
]

all-append : (p : ℕ → Bool) (s t : Text) → all p (s ++ t) ≡ (all p s && all p t)
unfolding all
all-append p [] t = refl
all-append p (c ∷ s) t = ground (arith, all-append p s t)

digit_lem : (d : ℕ) → d < 10 → is_digit (48 + d) ≡ true
unfolding is_digit
digit_lem d h = ground arith

digits-AllDigits : (f n : ℕ) → AllDigits (digits f n)
unfolding digits all AllDigits
digits-AllDigits zero n = refl
digits-AllDigits (suc f) n = elim (Bool-cases (ltb n 10)) [
  | inl small ↦ rw small (ground (arith, digit_lem n))
  | inr large ↦
      rw (large, all-append, digits-AllDigits f (n / 10), digit_lem (n % 10) (omega arith)) refl
]

lstrip-AllDigits : (s : Text) → AllDigits s → lstrip s ≡ s
unfolding lstrip AllDigits all is_digit
lstrip-AllDigits [] h = refl
lstrip-AllDigits (c ∷ s) h = ground arith

rstrip-AllDigits : (s : Text) → AllDigits s → rstrip s ≡ s
unfolding rstrip AllDigits all is_digit
rstrip-AllDigits [] h = refl
rstrip-AllDigits (c ∷ s) h = ground (arith, rstrip-AllDigits s)

strip-AllDigits : (s : Text) → AllDigits s → strip s ≡ s
unfolding strip
strip-AllDigits s h = rw (lstrip-AllDigits s h) (rstrip-AllDigits s h)

signed_value-AllDigits :
    (s : Text) (n : ℕ)
    → AllDigits s
    → digits_value s 0 false ≡ some n
    → signed_value s ≡ some (pos n)
unfolding signed_value AllDigits all is_digit
signed_value-AllDigits [] n h e = ground arith
signed_value-AllDigits (c ∷ s) n h e = ground arith

-- `int(str(n)) == n`
pub int-str : (n : ℕ) → int (str n) ≡ some (pos n)
unfolding int str
int-str n =
    let d = digits-AllDigits (suc n) n in
    rw (strip-AllDigits (digits (suc n) n) d)
      (signed_value-AllDigits _ n d (digits-value (suc n) n (omega arith)))
