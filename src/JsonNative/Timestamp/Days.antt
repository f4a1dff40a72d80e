-- ===== src/JsonNative/Timestamp/Days.antt =====
-- The day count of src/ingestion/JsonNativeDataParser.cpp against the calendar.
use back_tester.Prelude.{
  ℕ, zero, suc, ◌+◌, ◌-◌, ◌*◌, ◌/◌, ◌%◌, ◌≤◌, ◌<◌, ◌≡◌, refl, ap, ◌∙◌, Bool, not, ◌&&◌, ◌||◌, ◌==◌,
  pos, ◌+ℤ◌, ◌-ℤ◌, arith, pos-add, pos-sub, if◌then◌else◌,
}
use back_tester.JsonNative.Numbers.{scale}
use back_tester.JsonNative.Timestamp.{
  quotient, march_year, era_of, day_of_year, day_of_era, days_from_civil,
}

-- The calendar: leap years, the days of a year, and those before a month (from 1).
abbrev pub is_leap : ℕ → Bool
is_leap y = y % 4 == 0 && (not (y % 100 == 0) || y % 400 == 0)

-- The days from 1970-01-01 to the first of January `n` years later, year by year.
pub year_start : ℕ → ℕ
year_start zero = 0
year_start (suc n) = year_start n + (if is_leap (1970 + n) then 366 else 365)

year_start-closed :
    (n : ℕ)
    → year_start n + (1969 / 4 + 1969 / 400 + (1969 + n) / 100)
      ≡ 365 * n + ((1969 + n) / 4 + (1969 + n) / 400 + 1969 / 100)
unfolding year_start
year_start-closed zero = omega arith
year_start-closed (suc n) = ground (arith, year_start-closed n)

abbrev pub month_length : Bool → ℕ → ℕ
month_length leap m =
    if m == 2
    then (if leap then 29 else 28)
    else (if m == 4 || m == 6 || m == 9 || m == 11 then 30 else 31)

-- The days of a year before its month `1 + k`, month by month.
pub month_start : Bool → ℕ → ℕ
month_start leap zero = 0
month_start leap (suc k) = month_start leap k + month_length leap (suc k)

-- The count of days from 1970-01-01 to the day `d` of the month `1 + k`, `n` years later.
pub day_number : ℕ → ℕ → ℕ → ℕ
day_number n k d = year_start n + month_start (is_leap (1970 + n)) k + (d - 1)

leap_day : Bool → ℕ
leap_day leap = if leap then 1 else 0

month_start_early : (leap : Bool) (k : ℕ) → k < 2 → month_start leap k ≡ 31 * k
unfolding month_start
month_start_early leap zero h = refl
month_start_early leap (suc zero) h = refl
month_start_early leap (suc (suc k)) h = absurd (omega arith)

month_start-late :
    (leap : Bool) (k : ℕ)
    → k < 10
    → month_start leap (suc (suc k)) ≡ 59 + leap_day leap + (153 * k + 2) / 5
unfolding month_start leap_day
month_start-late leap zero h = ground arith
month_start-late leap (suc k) h = ground (arith, month_start-late leap k (omega arith))

march_year-late : (y m : ℕ) → 2 < m → march_year (pos y) (pos m) ≡ pos y
unfolding march_year ◌-ℤ◌
march_year-late y m h = ground arith

march_year-early : (y m : ℕ) → 0 < y → m ≤ 2 → march_year (pos y) (pos m) ≡ pos (y - 1)
unfolding march_year ◌-ℤ◌
march_year-early y m hy h = ground arith

day_of_year-late :
    (m d : ℕ) → 2 < m → 0 < d → day_of_year (pos m) (pos d) ≡ pos ((153 * (m - 3) + 2) / 5 + d - 1)
unfolding day_of_year quotient scale ◌-ℤ◌ ◌+ℤ◌
day_of_year-late m d h hd = ground arith

day_of_year-early :
    (m d : ℕ) → m ≤ 2 → 0 < d → day_of_year (pos m) (pos d) ≡ pos ((153 * (m + 9) + 2) / 5 + d - 1)
unfolding day_of_year quotient scale ◌-ℤ◌ ◌+ℤ◌
day_of_year-early m d h hd = ground arith

era_of-pos : (z : ℕ) → era_of (pos z) ≡ pos (z / 400)
unfolding era_of quotient
era_of-pos z = ground arith

day_of_era-pos :
    (yoe doy : ℕ) → day_of_era (pos yoe) (pos doy) ≡ pos (365 * yoe + yoe / 4 - yoe / 100 + doy)
unfolding day_of_era scale quotient ◌-ℤ◌ ◌+ℤ◌
day_of_era-pos yoe doy = ground arith

-- `days`, from the March year `z` and the day `doy` of it.
civil_days : ℕ → ℕ → ℕ
civil_days z doy =
    let yoe = z - 400 * (z / 400) in
    146097 * (z / 400) + (365 * yoe + yoe / 4 - yoe / 100 + doy) - 719468

-- The days before a March year, through the cycle of 400 years and without it.
days_of_cycle :
    (z : ℕ)
    → 146097 * (z / 400)
        + (365 * (z - 400 * (z / 400)) + (z - 400 * (z / 400)) / 4 - (z - 400 * (z / 400)) / 100)
        + z / 100
      ≡ 365 * z + z / 4 + z / 400
days_of_cycle z = omega arith

civil_days-pos :
    (z doy : ℕ)
    → 1969 ≤ z
    → (z < 1970 → 306 ≤ doy)
    → scale 146097 (era_of (pos z))
        +ℤ day_of_era (pos z -ℤ scale 400 (era_of (pos z))) (pos doy)
        -ℤ pos 719468
      ≡ pos (civil_days z doy)
unfolding civil_days scale
civil_days-pos z doy h first =
    rw
      (
        era_of-pos z,
        pos-sub z (400 * (z / 400)) (omega arith),
        day_of_era-pos (z - 400 * (z / 400)) doy,
        pos-add (146097 * (z / 400)) (
            365 * (z - 400 * (z / 400))
            + (z - 400 * (z / 400)) / 4
            - (z - 400 * (z / 400)) / 100
            + doy),
      )
      (pos-sub _ 719468 (grind (arith, days_of_cycle z)))

civil_days-closed :
    (z doy : ℕ)
    → 1969 ≤ z
    → (z < 1970 → 306 ≤ doy)
    → civil_days z doy + (719468 + z / 100) ≡ 365 * z + z / 4 + z / 400 + doy
unfolding civil_days
civil_days-closed z doy h first = grind (arith, days_of_cycle z)

-- A date from March on, and one in January or February, whose March year is the one before.
days_late :
    (n k d : ℕ)
    → k < 10
    → 0 < d
    → days_from_civil (pos (1970 + n)) (pos (suc (suc (suc k)))) (pos d)
      ≡ pos (day_number n (suc (suc k)) d)
unfolding days_from_civil day_number leap_day
days_late n k d h hd =
    rw
      (
        march_year-late (1970 + n) (suc (suc (suc k))) (omega arith),
        day_of_year-late (suc (suc (suc k))) d (omega arith) hd,
      )
      (civil_days-pos (1970 + n) _ (omega arith) (λ early. absurd (omega arith))
        ∙ ap pos (
            ground (
              arith,
              civil_days-closed (1970 + n) ((153 * (suc (suc (suc k)) - 3) + 2) / 5 + d - 1),
              year_start-closed n,
              month_start-late (is_leap (1970 + n)) k h,
            )))

days_early :
    (n k d : ℕ)
    → k < 2
    → 0 < d
    → days_from_civil (pos (1970 + n)) (pos (suc k)) (pos d) ≡ pos (day_number n k d)
unfolding days_from_civil day_number
days_early n k d h hd =
    rw
      (
        march_year-early (1970 + n) (suc k) (omega arith) (omega arith),
        day_of_year-early (suc k) d (omega arith) hd,
      )
      (civil_days-pos (1970 + n - 1) _ (omega arith) (λ early. omega arith)
        ∙ ap pos (
            ground (
              arith,
              civil_days-closed (1970 + n - 1) ((153 * (suc k + 9) + 2) / 5 + d - 1),
              year_start-closed n,
              month_start_early (is_leap (1970 + n)) k h,
            )))

-- The parser's count of days is the calendar's, for every date from 1970-01-01 on, the days counted
-- year by year and month by month.
pub days_from_civil-day_number :
    (n k d : ℕ)
    → k < 12
    → 0 < d
    → days_from_civil (pos (1970 + n)) (pos (suc k)) (pos d) ≡ pos (day_number n k d)
days_from_civil-day_number n zero d h hd = days_early n 0 d (omega arith) hd
days_from_civil-day_number n (suc zero) d h hd = days_early n 1 d (omega arith) hd
days_from_civil-day_number n (suc (suc k)) d h hd = days_late n k d (omega arith) hd

pub day_number_lem :
    (n k d : ℕ) → day_number n k d ≡ year_start n + month_start (is_leap (1970 + n)) k + (d - 1)
unfolding day_number
day_number_lem n k d = refl

pub year_start-le : (n : ℕ) → n < 292 → year_start n ≤ 365 * 291 + 71
year_start-le n h = omega (arith, year_start-closed n)

pub month_start-le : (leap : Bool) (k : ℕ) → k < 12 → month_start leap k ≤ 335
unfolding leap_day
month_start-le leap zero h = omega (arith, month_start_early leap 0 (omega arith))
month_start-le leap (suc zero) h = omega (arith, month_start_early leap 1 (omega arith))
month_start-le leap (suc (suc k)) h = ground (arith, month_start-late leap k (omega arith))
