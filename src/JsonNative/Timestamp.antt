-- ===== src/JsonNative/Timestamp.antt =====
-- `ndp_parseIso8601Nanos` of src/ingestion/JsonNativeDataParser.cpp: the instant, in nanoseconds from
-- 1970, of a text such as 2026-04-01T00:00:21.480470598Z.
pub mod Days
pub mod RoundTrip
use back_tester.Prelude.{
  ℕ, zero, suc, ◌+◌, ◌-◌, ◌*◌, ◌/◌, ◌^◌, ltb, leb, Bool, ◌&&◌, ◌==◌, [], ◌∷◌, ℤ, pos, negsuc, sub_ℕ,
  ◌+ℤ◌, ◌-ℤ◌, leb_ℤ, length, get_or, Option, none, some, if◌then◌else◌,
}
use back_tester.JsonNative.Scan.{Text, is_digit}
use back_tester.JsonNative.Numbers.{scale, int64, digit_at, parse_nanos_fixed9}

-- Division of an `int`, towards zero.
unfoldable pub quotient : ℕ → ℤ → ℤ
quotient k (pos n) = pos (n / k)
quotient k (negsuc n) = sub_ℕ 0 (suc n / k)

-- `z`, the year that begins in March.
unfoldable pub march_year : ℤ → ℤ → ℤ
march_year y mo = if leb_ℤ mo (pos 2) then y -ℤ pos 1 else y

unfoldable pub era_of : ℤ → ℤ
unfolding quotient
era_of z = quotient 400 (if leb_ℤ (pos 0) z then z else z -ℤ pos 399)

-- `doy`
unfoldable pub day_of_year : ℤ → ℤ → ℤ
unfolding quotient
day_of_year mo dy =
    let shifted : ℤ = if leb_ℤ mo (pos 2) then mo +ℤ pos 9 else mo -ℤ pos 3 in
    quotient 5 (scale 153 shifted +ℤ pos 2) +ℤ dy -ℤ pos 1

-- `doe`
unfoldable pub day_of_era : ℤ → ℤ → ℤ
unfolding quotient
day_of_era yoe doy = scale 365 yoe +ℤ quotient 4 yoe -ℤ quotient 100 yoe +ℤ doy

-- `days`
unfoldable pub days_from_civil : ℤ → ℤ → ℤ → ℤ
unfolding march_year era_of day_of_year day_of_era
days_from_civil y mo dy =
    let z = march_year y mo in
    let era = era_of z in
    let yoe = z -ℤ scale 400 era in
    scale 146097 era +ℤ day_of_era yoe (day_of_year mo dy) -ℤ pos 719468

-- Two digits, and four.
unfoldable pub two_digits : Text → ℕ → ℤ
unfolding digit_at
two_digits s i = scale 10 (digit_at s i) +ℤ digit_at s (suc i)

unfoldable pub four_digits : Text → ℤ
unfolding digit_at
four_digits s =
    scale 1000 (digit_at s 0) +ℤ scale 100 (digit_at s 1) +ℤ scale 10 (digit_at s 2) +ℤ digit_at s 3

unfoldable pub drop : ℕ → Text → Text
drop zero s = s
drop (suc n) [] = []
drop (suc n) (c ∷ s) = drop n s

-- The loop over a shorter fraction, with `left` of its 9 places open, and the factor `POW10` for those
-- that stay open.
unfoldable pub short_fraction : ℕ → ℕ → Text → ℕ
short_fraction zero acc p = acc
short_fraction (suc left) acc [] = acc * 10 ^ suc left
short_fraction (suc left) acc (c ∷ p) =
    let rest = short_fraction left (acc * 10 + (c - b'0')) p in
    if is_digit c then rest else acc * 10 ^ suc left

unfoldable pub nanos_of : Text → ℤ
unfolding parse_nanos_fixed9 short_fraction drop
nanos_of s =
    if leb 29 (length s) && get_or s 19 0 == b'.'
    then parse_nanos_fixed9 (drop 20 s)
    else (if ltb 19 (length s) && get_or s 19 0 == b'.'
        then pos (short_fraction 9 0 (drop 20 s))
        else pos 0)

-- `sec`
unfoldable pub seconds_of : Text → ℤ
unfolding four_digits two_digits
seconds_of s =
    scale 86400 (days_from_civil (four_digits s) (two_digits s 5) (two_digits s 8))
    +ℤ scale 3600 (two_digits s 11)
    +ℤ scale 60 (two_digits s 14)
    +ℤ two_digits s 17

-- `ndp_parseIso8601Nanos`; `none` where it throws "bad timestamp".
unfoldable pub parse_iso8601_nanos : Text → Option ℤ
unfolding seconds_of nanos_of int64
parse_iso8601_nanos s =
    if ltb (length s) 19 then none else some (int64 (scale 1000000000 (seconds_of s) +ℤ nanos_of s))
