-- ===== src/Sync/Time/RoundTrip.antt =====
-- A time that the spool writes is read back.
use pumo_bio_metric.Prelude.{
  ℕ, ◌+◌, ◌/◌, ◌%◌, ◌≤◌, ◌<◌, ◌≡◌, refl, true, false, [], ◌∷◌, arith, ltb, Option, none, some,
}
use pumo_bio_metric.Text.{Text, codes}
use pumo_bio_metric.Sync.Time.{
  DateTime, days_in_month, is_valid, two_digits, one_digit, four_digits, blank_digit, skip_blanks,
  match_format, strptime, iso_format, epoch, parse_time, strftime,
}

parse_tests :
    (parse_time (codes " 2026/9/08 7:05:59 ")
      ≡ some (record { year = 2026; month = 9; day = 8; hour = 7; minute = 5; second = 59 }))
    × (parse_time (codes "20240229235960") ≡ none)
    × (parse_time (codes "2023-02-29 10:00") ≡ none)
unfolding parse_time match_format two_digits one_digit four_digits blank_digit skip_blanks
parse_tests = (refl, refl, refl)

two_digits-pad2 :
    (lo hi n : ℕ) (s : Text)
    → lo ≤ n
    → n ≤ hi
    → hi < 100
    → two_digits lo hi ((48 + n / 10) ∷ (48 + n % 10) ∷ s) ≡ some (n, s)
unfolding two_digits
two_digits-pad2 lo hi n s h k l = ground arith

four_digits-year :
    (n : ℕ) (s : Text)
    → 1000 ≤ n
    → n ≤ 9999
    → four_digits ((48 + n / 1000) ∷ (48 + n / 100 % 10) ∷ (48 + n / 10 % 10) ∷ (48 + n % 10) ∷ s)
      ≡ some (n, s)
unfolding four_digits
four_digits-year n s h k = ground arith

skip_blanks-pad2 {ℓ} :
    {A : Type ℓ} (n : ℕ) (s : Text) (k : Text → Option A)
    → n < 100
    → skip_blanks (32 ∷ (48 + n / 10) ∷ s) k ≡ k ((48 + n / 10) ∷ s)
unfolding skip_blanks
skip_blanks-pad2 n s k h = ground arith

-- A valid time of a year with four digits.
pub record IsWritable (t : DateTime) : Type 0 where
  pub year_low : 1000 ≤ t.year
  pub valid : is_valid t ≡ true

days_in_month-le : (y m : ℕ) → days_in_month y m ≤ 31
unfolding days_in_month
days_in_month-le y m = ground arith

-- The bounds of the fields, as the formats need them.
record Bounds (t : DateTime) : Type 0 where
  year_high : t.year ≤ 9999
  month_low : 1 ≤ t.month
  month_high : t.month ≤ 12
  day_low : 1 ≤ t.day
  day_high : t.day ≤ 31
  hour_high : t.hour ≤ 23
  minute_high : t.minute ≤ 59
  second_high : t.second ≤ 61

is_valid-Bounds : (t : DateTime) → is_valid t ≡ true → Bounds t
unfolding is_valid
is_valid-Bounds t h = ground (arith, h, days_in_month-le t.year t.month)

match_format-strftime :
    (t : DateTime) → IsWritable t → match_format iso_format epoch (strftime t) ≡ some (t, [])
unfolding match_format strftime
match_format-strftime t w =
    let b = is_valid-Bounds t w.valid in
    let long : ltb t.year 1000 ≡ false = ground (arith, w.year_low) in
    let to_12 : 12 < 100 = ground arith in
    let to_23 : 23 < 100 = ground arith in
    let to_31 : 31 < 100 = ground arith in
    let to_59 : 59 < 100 = ground arith in
    let to_61 : 61 < 100 = ground arith in
    let hours : t.hour < 100 = ground (arith, b.hour_high) in
    rw
      (
        long,
        four_digits-year t.year _ w.year_low b.year_high,
        two_digits-pad2 1 12 t.month _ b.month_low b.month_high to_12,
        two_digits-pad2 1 31 t.day _ b.day_low b.day_high to_31,
        skip_blanks-pad2 t.hour _ _ hours,
        two_digits-pad2 0 23 t.hour _ (ground arith) b.hour_high to_23,
        two_digits-pad2 0 59 t.minute _ (ground arith) b.minute_high to_59,
        two_digits-pad2 0 61 t.second _ (ground arith) b.second_high to_61,
      )
      refl

-- `strptime` reads what `strftime` wrote.
pub strptime-strftime : (t : DateTime) → IsWritable t → strptime iso_format (strftime t) ≡ some t
unfolding strptime
strptime-strftime t w = rw (match_format-strftime t w, w.valid) refl
