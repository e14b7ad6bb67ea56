-- ===== src/Sync/Time.antt =====
-- `datetime.strptime` and `strftime` for the formats of sync/push_ingest.py and sync/models.py, and
-- `_parse_time`.
pub mod RoundTrip
use pumo_bio_metric.Prelude.{
  ℕ, zero, suc, ◌+◌, ◌-◌, ◌*◌, ◌/◌, ◌%◌, ◌≤◌, Bool, true, false, not, ◌&&◌, ◌||◌, List, [], ◌∷◌,
  ◌++◌, ltb, leb, ◌==◌, if◌then◌else◌, Option, none, some,
}
use pumo_bio_metric.Text.{Text, is_digit, is_space, is_empty, strip}
use pumo_bio_metric.Text.Numbers.{str}

-- A naive `datetime` without microseconds.
pub record DateTime : Type 0 where
  pub year : ℕ
  pub month : ℕ
  pub day : ℕ
  pub hour : ℕ
  pub minute : ℕ
  pub second : ℕ

abbrev pub is_leap : ℕ → Bool
is_leap y = y % 4 == 0 && not (y % 100 == 0) || y % 400 == 0

unfoldable pub days_in_month : ℕ → ℕ → ℕ
days_in_month y m =
    if m == 2
    then if is_leap y then 29 else 28
    else if m == 4 || m == 6 || m == 9 || m == 11
    then 30
    else 31

-- What the constructor of `datetime` accepts.
unfoldable pub is_valid : DateTime → Bool
is_valid t =
    leb 1 t.year
    && leb t.year 9999
    && (leb 1 t.month && leb t.month 12)
    && leb 1 t.day
    && leb t.day (days_in_month t.year t.month)
    && (ltb t.hour 24 && ltb t.minute 60 && ltb t.second 60)

pub data Directive : Type 0 where
  year month day hour minute second : Directive
  literal : ℕ → Directive
  -- white space in a format stands for one or more blanks
  blanks : Directive

-- Two digits whose value lies in the range.
unfoldable pub two_digits : ℕ → ℕ → Text → Option (ℕ × Text)
unfolding is_digit
two_digits lo hi (a ∷ b ∷ s) =
    let n = (a - 48) * 10 + (b - 48) in
    if is_digit a && is_digit b && (leb lo n && leb n hi) then some (n, s) else none
two_digits lo hi _ = none

-- One digit, not below `lo`.
unfoldable pub one_digit : ℕ → Text → Option (ℕ × Text)
unfolding is_digit
one_digit lo (a ∷ s) = if is_digit a && leb lo (a - 48) then some (a - 48, s) else none
one_digit lo [] = none

unfoldable pub four_digits : Text → Option (ℕ × Text)
unfolding is_digit
four_digits (a ∷ b ∷ c ∷ d ∷ s) =
    if is_digit a && is_digit b && (is_digit c && is_digit d)
    then some ((a - 48) * 1000 + (b - 48) * 100 + ((c - 48) * 10 + (d - 48)), s)
    else none
four_digits _ = none

unfoldable pub blank_digit : Text → Option (ℕ × Text)
unfolding one_digit
blank_digit (c ∷ s) = if c == 32 then one_digit 1 s else none
blank_digit [] = none

-- The first way that works: the regular expression of `strptime` tries its alternatives in order
-- and goes back to the next one where the rest of the format does not match.
abbrev pub or_next {ℓ} : {A : Type ℓ} → Option A → Option A → Option A
or_next (some a) o = some a
or_next none o = o

abbrev pub then_on {ℓ} : {A : Type ℓ} → Option (ℕ × Text) → (ℕ → Text → Option A) → Option A
then_on none k = none
then_on (some (n, s)) k = k n s

-- One or more blanks, as many as possible first.
unfoldable pub skip_blanks {ℓ} : {A : Type ℓ} → Text → (Text → Option A) → Option A
unfolding is_space
skip_blanks [] k = none
skip_blanks (c ∷ s) k =
    let more = or_next (skip_blanks s k) (k s) in if is_space c then more else none

abbrev set_field : Directive → ℕ → DateTime → DateTime
set_field year n t = record t { year = n }
set_field month n t = record t { month = n }
set_field day n t = record t { day = n }
set_field hour n t = record t { hour = n }
set_field minute n t = record t { minute = n }
set_field second n t = record t { second = n }
set_field _ n t = t

-- A match of the whole format with a beginning of the text, and the text that is left.
unfoldable pub match_format : List Directive → DateTime → Text → Option (DateTime × Text)
match_format [] t s = some (t, s)
match_format (year ∷ ds) t s =
    then_on (four_digits s) (λ n rest. match_format ds (set_field year n t) rest)
match_format (month ∷ ds) t s =
    or_next (then_on (two_digits 1 12 s) (λ n rest. match_format ds (set_field month n t) rest))
      (then_on (one_digit 1 s) (λ n rest. match_format ds (set_field month n t) rest))
match_format (day ∷ ds) t s =
    or_next (then_on (two_digits 1 31 s) (λ n rest. match_format ds (set_field day n t) rest)) (
      or_next (then_on (one_digit 1 s) (λ n rest. match_format ds (set_field day n t) rest))
        (then_on (blank_digit s) (λ n rest. match_format ds (set_field day n t) rest)))
match_format (hour ∷ ds) t s =
    or_next (then_on (two_digits 0 23 s) (λ n rest. match_format ds (set_field hour n t) rest))
      (then_on (one_digit 0 s) (λ n rest. match_format ds (set_field hour n t) rest))
match_format (minute ∷ ds) t s =
    or_next (then_on (two_digits 0 59 s) (λ n rest. match_format ds (set_field minute n t) rest))
      (then_on (one_digit 0 s) (λ n rest. match_format ds (set_field minute n t) rest))
match_format (second ∷ ds) t s =
    or_next (then_on (two_digits 0 61 s) (λ n rest. match_format ds (set_field second n t) rest))
      (then_on (one_digit 0 s) (λ n rest. match_format ds (set_field second n t) rest))
match_format (literal c ∷ ds) t [] = none
match_format (literal c ∷ ds) t (d ∷ s) =
    let rest = match_format ds t s in if c == d then rest else none
match_format (blanks ∷ ds) t s = skip_blanks s (λ rest. match_format ds t rest)

-- The fields that a format leaves out.
abbrev pub epoch : DateTime
epoch = record { year = 1900; month = 1; day = 1; hour = 0; minute = 0; second = 0 }

abbrev pub accept : Option (DateTime × Text) → Option DateTime
accept none = none
accept (some (t, rest)) = if is_empty rest && is_valid t then some t else none

-- `datetime.strptime(text, format)`, with `none` for the `ValueError`
unfoldable pub strptime : List Directive → Text → Option DateTime
unfolding match_format is_valid days_in_month
strptime format text = accept (match_format format epoch text)

abbrev pub clock : List Directive
clock = hour ∷ literal b':' ∷ minute ∷ literal b':' ∷ second ∷ []

-- "%Y-%m-%d %H:%M:%S", the format of the spool and the first of `_TIME_FORMATS`
abbrev pub iso_format : List Directive
iso_format = year ∷ literal b'-' ∷ month ∷ literal b'-' ∷ day ∷ blanks ∷ clock

-- `_TIME_FORMATS`
abbrev pub time_formats : List (List Directive)
time_formats =
    iso_format
    ∷ (year ∷ literal b'/' ∷ month ∷ literal b'/' ∷ day ∷ blanks ∷ clock)
    ∷ (year
        ∷ literal b'-'
        ∷ month
        ∷ literal b'-'
        ∷ day
        ∷ blanks
        ∷ hour
        ∷ literal b':'
        ∷ minute
        ∷ [])
    ∷ (day ∷ literal b'-' ∷ month ∷ literal b'-' ∷ year ∷ blanks ∷ clock)
    ∷ (year ∷ month ∷ day ∷ hour ∷ minute ∷ second ∷ [])
    ∷ []

unfoldable pub try_formats : List (List Directive) → Text → Option DateTime
unfolding strptime
try_formats [] text = none
try_formats (f ∷ fs) text = or_next (strptime f text) (try_formats fs text)

-- `_parse_time`
unfoldable pub parse_time : Text → Option DateTime
unfolding strip try_formats
parse_time raw = if is_empty (strip raw) then none else try_formats time_formats (strip raw)

abbrev pub pad2 : ℕ → Text
pad2 n = (48 + n / 10) ∷ (48 + n % 10) ∷ []

-- "%Y", which the C library does not pad below the year 1000
unfoldable pub year_text : ℕ → Text
year_text n =
    if ltb n 1000
    then str n
    else (48 + n / 1000) ∷ (48 + n / 100 % 10) ∷ (48 + n / 10 % 10) ∷ (48 + n % 10) ∷ []

-- `t.strftime("%Y-%m-%d %H:%M:%S")`
unfoldable pub strftime : DateTime → Text
unfolding year_text str
strftime t =
    year_text t.year
    ++ (b'-'
        ∷ (pad2 t.month
            ++ (b'-'
                ∷ (pad2 t.day
                    ++ (32
                        ∷ (pad2 t.hour ++ (b':' ∷ (pad2 t.minute ++ (b':' ∷ pad2 t.second)))))))))
