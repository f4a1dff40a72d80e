-- ===== src/JsonNative/Timestamp/RoundTrip.antt =====
-- Printed instants, and what `ndp_parseIso8601Nanos` of src/ingestion/JsonNativeDataParser.cpp makes
-- of them.
use back_tester.Prelude.{
  ℕ, suc, ◌+◌, ◌*◌, ◌/◌, ◌%◌, ◌^◌, ◌≤◌, ◌<◌, ◌≡◌, refl, ap, [], ◌∷◌, ◌++◌, pos, pos-add, some,
  arith,
}
use back_tester.JsonNative.Scan.{Text}
use back_tester.JsonNative.Numbers.{digit_at, int64-pos}
use back_tester.JsonNative.Numbers.RoundTrip.{
  print_digits, digit-print, scale-pos, parse_nanos_fixed9-print,
}
use back_tester.JsonNative.Timestamp.{
  two_digits, four_digits, nanos_of, seconds_of, parse_iso8601_nanos,
}
use back_tester.JsonNative.Timestamp.Days.{
  is_leap, day_number, day_number_lem, year_start-le, month_start-le, days_from_civil-day_number,
}

-- A moment of the calendar: `year` years after 1970, the month from 0.
pub record Moment : Type 0 where
  pub year : ℕ
  pub month : ℕ
  pub day : ℕ
  pub hour : ℕ
  pub minute : ℕ
  pub second : ℕ
  pub nanos : ℕ

-- The fields are in the ranges of a clock and a calendar, up to the end of the
-- year 2261, within which an `int64_t` of nanoseconds lasts.
pub record IsMoment (t : Moment) : Type 0 where
  pub year_small : t.year < 292
  pub month_small : t.month < 12
  pub day_pos : 0 < t.day
  pub day_small : t.day ≤ 31
  pub hour_small : t.hour < 24
  pub minute_small : t.minute < 60
  pub second_small : t.second < 60
  pub nanos_small : t.nanos < 10 ^ 9

-- YYYY-MM-DDThh:mm:ss
abbrev print_clock : Moment → Text → Text
print_clock t rest =
    print_digits 2 t.hour
    ++ (b':' ∷ print_digits 2 t.minute ++ (b':' ∷ print_digits 2 t.second ++ rest))

abbrev print_seconds : Moment → Text → Text
print_seconds t rest =
    print_digits 4 (1970 + t.year)
    ++ (b'-' ∷ print_digits 2 (suc t.month)
        ++ (b'-' ∷ print_digits 2 t.day ++ (b'T' ∷ print_clock t rest)))

-- With nine digits of nanoseconds and the Z of the universal time.
unfoldable pub print_moment : Moment → Text
print_moment t = print_seconds t (b'.' ∷ print_digits 9 t.nanos ++ b'Z' ∷ [])

-- The seconds and the nanoseconds from 1970, counted by the calendar.
abbrev pub seconds_since_1970 : Moment → ℕ
seconds_since_1970 t =
    86400 * day_number t.year t.month t.day + 3600 * t.hour + 60 * t.minute + t.second

unfoldable pub instant : Moment → ℕ
instant t = 10 ^ 9 * seconds_since_1970 t + t.nanos

two_digits_of : (n : ℕ) → n < 100 → 10 * (n / 10 % 10) + n % 10 ≡ n
two_digits_of n h = omega arith

four_digits_of :
    (n : ℕ)
    → n < 10000
    → 1000 * (n / 10 / 10 / 10 % 10) + 100 * (n / 10 / 10 % 10) + 10 * (n / 10 % 10) + n % 10 ≡ n
four_digits_of n h = omega arith

seconds_of-print :
    (t : Moment) (rest : Text)
    → IsMoment t
    → seconds_of (print_seconds t rest) ≡ pos (seconds_since_1970 t)
unfolding seconds_of print_digits two_digits four_digits digit_at
seconds_of-print t rest h =
    simp (digit-print, scale-pos, pos-add)
      (rw
        (
          four_digits_of (1970 + t.year) (omega arith),
          two_digits_of (suc t.month) (omega arith),
          two_digits_of t.day (omega arith),
          two_digits_of t.hour (omega arith),
          two_digits_of t.minute (omega arith),
          two_digits_of t.second (omega arith),
          days_from_civil-day_number t.year t.month t.day h.month_small h.day_pos,
          scale-pos,
          pos-add,
          pos-add,
          pos-add,
        )
        refl)

nanos_of-print :
    (t : Moment)
    → IsMoment t
    → nanos_of (print_seconds t (b'.' ∷ print_digits 9 t.nanos ++ b'Z' ∷ [])) ≡ pos t.nanos
unfolding nanos_of print_digits
nanos_of-print t h = parse_nanos_fixed9-print t.nanos (b'Z' ∷ []) h.nanos_small

instant-lt : (t : Moment) → IsMoment t → instant t < 2 ^ 63
unfolding instant
instant-lt t h =
    let start = year_start-le t.year h.year_small in
    let months = month_start-le (is_leap (1970 + t.year)) t.month h.month_small in
    omega (arith, day_number_lem t.year t.month t.day)

-- The text of a moment is parsed to the nanoseconds from 1970 to it, days counted by the calendar.
pub parse_iso8601_nanos-print :
    (t : Moment) → IsMoment t → parse_iso8601_nanos (print_moment t) ≡ some (pos (instant t))
unfolding parse_iso8601_nanos print_moment instant print_digits
parse_iso8601_nanos-print t h =
    rw (seconds_of-print t (b'.' ∷ print_digits 9 t.nanos ++ b'Z' ∷ []) h, nanos_of-print t h)
      (rw (scale-pos, pos-add) (ap some (int64-pos (instant t) (instant-lt t h))))
