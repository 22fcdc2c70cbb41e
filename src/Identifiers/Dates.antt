-- ===== src/Identifiers/Dates.antt =====
-- What `Timestamp::parse` accepts
-- (crates/guardian-core/src/identifiers.rs).
mod Print
mod Spelled
use vds_guardian.Prelude.{
  ℕ, ◌+◌, ◌-◌, ◌*◌, ◌/◌, ◌%◌, ◌≤◌, ◌<◌, ◌≡◌, ◌≢◌, ◌↔◌, refl, ap, sym, ◌∙◌, Bool, true, false, none,
  some, List, [], ◌∷◌, ◌++◌, ◌⊎◌, inl, inr, arith, All, length, and-eq-true, ◌==◌, ◌&&◌,
  nat_beq_iff, nat_eq, ap₂, all, ok, if◌then◌else◌, ltb, subst, Bool-cases,
}
use vds_guardian.Text.{Text, Bytes, bytes, is_digit, IsAscii, all-bytes_sound, bytes_of_IsAscii}
use vds_guardian.Identifiers.Defs.{
  Timestamp, parse_timestamp, is_utc_timestamp, has_timestamp_shape, in_calendar, digits,
  digits_but, fold_digits, days_in_month, slice, byte_is, marks, ◌>>?◌, marks_at,
}
use Print.{DateTime}
use Spelled.{spelled}
unfoldable pub use Print.*
use vds_guardian.Identifiers.Dates.Spelled.{in_range, shape_parts, spelled_lem, digits_but-named}

days_in_month-le : (y m : ℕ) → days_in_month y m ≤ 31
unfolding days_in_month
days_in_month-le y m = ground arith

tens : (n : ℕ) → n < 100 → is_digit (b'0' + n / 10) ≡ true
tens n h = is_digit_of_lt (n / 10) (omega arith)

ones : (n : ℕ) → is_digit (b'0' + n % 10) ≡ true
ones n = is_digit_of_lt (n % 10) (omega arith)

print-IsAscii : (d : DateTime) → IsValidDate d → IsAscii (print d)
unfolding print
print-IsAscii d v = omega (arith, days_in_month-le d.year d.month)

print-digits : (d : DateTime) → IsValidDate d → digits_but 0 marks (print d) ≡ true
unfolding print
print-digits d v =
    digits_but-named (b'0' + d.year / 1000) (b'0' + d.year / 100 % 10) (b'0' + d.year / 10 % 10)
      (b'0' + d.year % 10) b'-' (b'0' + d.month / 10) (b'0' + d.month % 10) b'-' (b'0' + d.day / 10)
      (b'0' + d.day % 10) b'T' (b'0' + d.hour / 10) (b'0' + d.hour % 10) b':' (b'0' + d.minute / 10)
      (b'0' + d.minute % 10) b':' (b'0' + d.second / 10) (b'0' + d.second % 10) b'Z'
      (is_digit_of_lt (d.year / 1000) (omega arith))
      (is_digit_of_lt (d.year / 100 % 10) (omega arith))
      (is_digit_of_lt (d.year / 10 % 10) (omega arith)) (is_digit_of_lt (d.year % 10) (omega arith))
      (tens d.month (omega (arith, days_in_month-le d.year d.month))) (ones d.month)
      (tens d.day (omega (arith, days_in_month-le d.year d.month))) (ones d.day)
      (tens d.hour (omega (arith, days_in_month-le d.year d.month))) (ones d.hour)
      (tens d.minute (omega (arith, days_in_month-le d.year d.month))) (ones d.minute)
      (tens d.second (omega (arith, days_in_month-le d.year d.month))) (ones d.second)

print-shape : (d : DateTime) → IsValidDate d → has_timestamp_shape (print d) ≡ true
unfolding has_timestamp_shape marks_at print
print-shape d v = print-digits d v

spelled-print : (d : DateTime) → IsValidDate d → spelled (print d) ≡ d
unfolding print
spelled-print d v = λ i. record {
  year = value-four d.year (omega arith) i;
  month = value-two d.month (omega arith) i;
  day = value-two d.day (omega (arith, days_in_month-le d.year d.month)) i;
  hour = value-two d.hour (omega arith) i;
  minute = value-two d.minute (omega arith) i;
  second = value-two d.second (omega arith) i;
}

abbrev calendar_test : DateTime → Bool
calendar_test d = in_calendar d.year d.month d.day d.hour d.minute d.second

print-in_range : (d : DateTime) → IsValidDate d → in_range (print d) ≡ true
print-in_range d v =
    let (l, m, t) = shape_parts (print d) (print-shape d v) in
    let (_, _, e) = spelled_lem (print d) l m t in
    e ∙ ap calendar_test (spelled-print d v) ∙ in_calendar_of_IsValidDate d v

is_utc_timestamp_sound :
    (t : Text)
    → is_utc_timestamp t ≡ true
    → (has_timestamp_shape (bytes t) ≡ true) × (in_range (bytes t) ≡ true)
unfolding is_utc_timestamp
is_utc_timestamp_sound t h = if_true (has_timestamp_shape (bytes t)) (in_range (bytes t)) h
  where
    if_true : (b c : Bool) → (if b then c else false) ≡ true → (b ≡ true) × (c ≡ true)
    if_true true c h = (refl, h)
    if_true false c h = cc

is_utc_timestamp_complete :
    (t : Text)
    → has_timestamp_shape (bytes t) ≡ true
    → in_range (bytes t) ≡ true
    → is_utc_timestamp t ≡ true
unfolding is_utc_timestamp
is_utc_timestamp_complete t s r = rw s r

All-ltb : (bs : Bytes) → IsAscii bs → all (λ b. ltb b 0x80) bs ≡ true
All-ltb [] h = refl
All-ltb (b ∷ bs) (a, h) = ground (arith, All-ltb bs h)

-- A text whose bytes print a date is that print.
text_of_print : (t : Text) (d : DateTime) → IsValidDate d → print d ≡ bytes t → t ≡ print d
text_of_print t d v e =
    let (ascii, _) =
      all-bytes_sound (λ b. ltb b 0x80) t (λ b h. ground arith)
        (All-ltb (bytes t) (subst IsAscii e (print-IsAscii d v))) in
    sym (bytes_of_IsAscii t ascii) ∙ sym e

-- A timestamp is accepted exactly when it is the text YYYY-MM-DDTHH:MM:SSZ of a date of the
-- Gregorian calendar from the years 1970 to 9999, and it is then kept as it was written.
pub parse_timestamp_iff :
    (t : Text) (ts : Timestamp)
    → (parse_timestamp t ≡ ok ts)
      ↔ ((ts.as_str ≡ t) × ((d : DateTime) × IsValidDate d × (t ≡ print d)))
unfolding parse_timestamp
parse_timestamp_iff t ts = (sound, complete)
  where
    spelled_date : (is_utc_timestamp t ≡ true) → (d : DateTime) × IsValidDate d × (t ≡ print d)
    spelled_date h =
        let (s, r) = is_utc_timestamp_sound t h in
        let (l, m, g) = shape_parts (bytes t) s in
        let (e, y, c) = spelled_lem (bytes t) l m g in
        let v = in_calendar-IsValidDate (spelled (bytes t)) y (sym c ∙ r) in
        (spelled (bytes t), v, text_of_print t (spelled (bytes t)) v e)

    sound :
        parse_timestamp t ≡ ok ts
        → (ts.as_str ≡ t) × ((d : DateTime) × IsValidDate d × (t ≡ print d))
    sound h = elim (Bool-cases (is_utc_timestamp t)) [
      | inl y ↦ (ground arith, spelled_date y)
      | inr n ↦ absurd (ground arith)
    ]

    accepted : (d : DateTime) → IsValidDate d → t ≡ print d → is_utc_timestamp t ≡ true
    accepted d v e =
        let same : bytes t ≡ print d =
          ap bytes e ∙ bytes_of_IsAscii (print d) (print-IsAscii d v) in
        is_utc_timestamp_complete t (rw same (print-shape d v)) (rw same (print-in_range d v))

    complete :
        (ts.as_str ≡ t) × ((d : DateTime) × IsValidDate d × (t ≡ print d))
        → parse_timestamp t ≡ ok ts
    complete (q, (d, v, e)) = rw (accepted d v e, ← q) refl
