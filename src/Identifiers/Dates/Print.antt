-- ===== src/Identifiers/Dates/Print.antt =====
-- Calendar dates, their canonical text, and the value of its digits.
use vds_guardian.Prelude.{
  ℕ, ◌+◌, ◌-◌, ◌*◌, ◌/◌, ◌%◌, ◌≤◌, ◌<◌, ◌≡◌, ◌≢◌, true, some, [], ◌∷◌, ◌⊎◌, arith, nat_eq,
}
use vds_guardian.Text.{Text, is_digit}
use vds_guardian.Identifiers.Defs.{in_calendar, fold_digits, days_in_month}

pub record DateTime : Type 0 where
  pub year : ℕ
  pub month : ℕ
  pub day : ℕ
  pub hour : ℕ
  pub minute : ℕ
  pub second : ℕ

abbrev pub IsLeap : ℕ → Type 0
IsLeap y = ((y % 4 ≡ 0) × (y % 100 ≢ 0)) ⊎ (y % 400 ≡ 0)

-- The last day of a month, as the Gregorian calendar has it.
abbrev pub IsLastDay : ℕ → ℕ → ℕ → Type 0
IsLastDay y m n =
    ((m ≡ 2) × IsLeap y × (n ≡ 29))
    ⊎ ((m ≡ 2) × ¬ (IsLeap y) × (n ≡ 28))
    ⊎ (((m ≡ 4) ⊎ (m ≡ 6) ⊎ (m ≡ 9) ⊎ (m ≡ 11)) × (n ≡ 30))
    ⊎ (((m ≡ 1) ⊎ (m ≡ 3) ⊎ (m ≡ 5) ⊎ (m ≡ 7) ⊎ (m ≡ 8) ⊎ (m ≡ 10) ⊎ (m ≡ 12)) × (n ≡ 31))

-- In each of the twelve months, the day that `days_in_month` gives is the last one of that month in the
-- Gregorian calendar, leap years included.
pub days_in_month-IsLastDay : (y m : ℕ) → 1 ≤ m → m ≤ 12 → IsLastDay y m (days_in_month y m)
unfolding days_in_month
days_in_month-IsLastDay y m a b = ground arith

pub record IsValidDate (d : DateTime) : Type 0 where
  pub year_from : 1970 ≤ d.year
  pub year_to : d.year ≤ 9999
  pub month_from : 1 ≤ d.month
  pub month_to : d.month ≤ 12
  pub day_from : 1 ≤ d.day
  pub day_to : d.day ≤ days_in_month d.year d.month
  pub hour_to : d.hour ≤ 23
  pub minute_to : d.minute ≤ 59
  pub second_to : d.second ≤ 59

abbrev pub two : ℕ → Text → Text
two n rest = (b'0' + n / 10) ∷ (b'0' + n % 10) ∷ rest

abbrev pub four : ℕ → Text → Text
four n rest =
    (b'0' + n / 1000) ∷ (b'0' + n / 100 % 10) ∷ (b'0' + n / 10 % 10) ∷ (b'0' + n % 10) ∷ rest

-- YYYY-MM-DDTHH:MM:SSZ
unfoldable pub print : DateTime → Text
print d = four d.year (
    b'-'
    ∷ two d.month (
        b'-'
        ∷ two d.day (b'T' ∷ two d.hour (b':' ∷ two d.minute (b':' ∷ two d.second (b'Z' ∷ []))))))

unfoldable pub value_two : ℕ → ℕ → ℕ
value_two a b = (0 * 10 + (a - b'0')) * 10 + (b - b'0')

unfoldable pub value_four : ℕ → ℕ → ℕ → ℕ → ℕ
value_four a b c d = (((0 * 10 + (a - b'0')) * 10 + (b - b'0')) * 10 + (c - b'0')) * 10 + (d - b'0')

pub fold_two :
    (a b : ℕ)
    → is_digit a ≡ true
    → is_digit b ≡ true
    → fold_digits 0 (a ∷ b ∷ []) ≡ some (value_two a b)
unfolding fold_digits value_two
fold_two a b p q = rw (p, q)

pub fold_four :
    (a b c d : ℕ)
    → is_digit a ≡ true
    → is_digit b ≡ true
    → is_digit c ≡ true
    → is_digit d ≡ true
    → fold_digits 0 (a ∷ b ∷ c ∷ d ∷ []) ≡ some (value_four a b c d)
unfolding fold_digits value_four
fold_four a b c d p q r s = rw (p, q, r, s)

pub two-value :
    (a b : ℕ) (rest : Text)
    → is_digit a ≡ true
    → is_digit b ≡ true
    → two (value_two a b) rest ≡ a ∷ b ∷ rest
unfolding value_two
two-value a b rest p q = ground arith

pub four-value :
    (a b c d : ℕ) (rest : Text)
    → is_digit a ≡ true
    → is_digit b ≡ true
    → is_digit c ≡ true
    → is_digit d ≡ true
    → four (value_four a b c d) rest ≡ a ∷ b ∷ c ∷ d ∷ rest
unfolding value_four
four-value a b c d rest p q r s = ground arith

pub value-two : (n : ℕ) → n < 100 → value_two (b'0' + n / 10) (b'0' + n % 10) ≡ n
unfolding value_two
value-two n h = omega arith

pub value-four :
    (n : ℕ)
    → n < 10000
    → value_four (b'0' + n / 1000) (b'0' + n / 100 % 10) (b'0' + n / 10 % 10) (b'0' + n % 10) ≡ n
unfolding value_four
value-four n h = omega arith

pub is_digit_of_lt : (n : ℕ) → n < 10 → is_digit (b'0' + n) ≡ true
is_digit_of_lt n h = ground arith

pub in_calendar-IsValidDate :
    (d : DateTime)
    → d.year ≤ 9999
    → in_calendar d.year d.month d.day d.hour d.minute d.second ≡ true
    → IsValidDate d
unfolding in_calendar
in_calendar-IsValidDate d y h = ground arith

pub in_calendar_of_IsValidDate :
    (d : DateTime)
    → IsValidDate d
    → in_calendar d.year d.month d.day d.hour d.minute d.second ≡ true
unfolding in_calendar
in_calendar_of_IsValidDate d v = ground arith
