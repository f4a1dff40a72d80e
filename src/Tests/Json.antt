-- ===== src/Tests/Json.antt =====
-- The JSON parser of src/ingestion/JsonNativeDataParser.cpp on a small file.
use back_tester.Prelude.{
  ℕ, suc, ◌+◌, ◌≡◌, refl, true, List, [], ◌∷◌, ◌++◌, All, length, some, pos, negsuc, arith,
}
use back_tester.Event.{default_event, RType, Action, Side}
use back_tester.JsonSimple.{get_string, find_value, find_after, after_prefix, needle}
use back_tester.JsonSimple.Lookup.{get_string-found}
use back_tester.JsonNative.Scan.{skip_while, take_while, is_space, not_quote, Text}
use back_tester.JsonNative.Timestamp.{days_from_civil, parse_iso8601_nanos}
use back_tester.JsonNative.Timestamp.Days.{day_number, days_from_civil-day_number}
use back_tester.JsonNative.Timestamp.RoundTrip.{
  Moment, IsMoment, print_moment, instant, parse_iso8601_nanos-print,
}
use back_tester.JsonNative.Line.{object_loop, line_field, hd_field}
use back_tester.JsonNative.Line.Ends.{StopsAtEnd, object_loop-ends}
use back_tester.JsonNative.File.{parse_lines}
use back_tester.JsonNative.File.Ends.{parse_lines-enough}
use back_tester.JsonNative.Print.{codes, HdField, LineField, Number}

-- 2026-03-11T07:00:01.123456789Z
abbrev moment : Moment
moment = record {
  year = 56;
  month = 2;
  day = 11;
  hour = 7;
  minute = 0;
  second = 1;
  nanos = 123456789;
}

moment_ok : IsMoment moment
moment_ok = omega arith

parse_iso8601_nanos-print_example :
    parse_iso8601_nanos (print_moment moment) ≡ some (pos (instant moment))
parse_iso8601_nanos-print_example = parse_iso8601_nanos-print moment moment_ok

-- The 29th of February 2024.
days_from_civil-day_number_example :
    days_from_civil (pos (1970 + 54)) (pos (suc 1)) (pos 29) ≡ pos (day_number 54 1 29)
days_from_civil-day_number_example = days_from_civil-day_number 54 1 29 (omega arith) (omega arith)

abbrev number : ℕ → ℕ → Number
number m v = record { more = m; value = v }

abbrev add_line : List LineField
add_line =
    LineField.ts_recv moment
    ∷ LineField.hd (
        HdField.ts_event moment
        ∷ HdField.rtype RType.mbo
        ∷ HdField.publisher_id (number 2 101)
        ∷ HdField.instrument_id (number 4 34513)
        ∷ [])
    ∷ LineField.action Action.add
    ∷ LineField.side Side.buy
    ∷ LineField.price 2 (pos 21200000000)
    ∷ LineField.size (number 1 20)
    ∷ LineField.channel_id (number 1 23)
    ∷ LineField.order_id (number 19 10996414798222631105)
    ∷ LineField.flags (number 2 128)
    ∷ LineField.ts_in_delta 5 (negsuc 2364)
    ∷ LineField.sequence (number 4 52012)
    ∷ LineField.symbol (codes "EUCO SI 20260710 PS")
    ∷ []

-- A line with no ts_recv.
abbrev short_line : List LineField
short_line = LineField.null_price ∷ LineField.size (number 0 1) ∷ []

abbrev test_file : Text
test_file = codes "xeur-eobi.mbo.json"

-- A key that never ends.
abbrev cut_line : Text
cut_line = codes "{\"hd\":{\"rtype\":1"

object_loop-ends_example :
    (object_loop line_field 20 default_event cut_line
      ≡ object_loop line_field (suc (length cut_line)) default_event cut_line)
    × StopsAtEnd (object_loop line_field 20 default_event cut_line)
    × (object_loop hd_field 20 default_event cut_line
        ≡ object_loop hd_field (suc (length cut_line)) default_event cut_line)
    × StopsAtEnd (object_loop hd_field 20 default_event cut_line)
object_loop-ends_example = object_loop-ends 20 default_event cut_line (omega arith)

parse_lines-enough_example : parse_lines 20 cut_line ≡ parse_lines 30 cut_line
parse_lines-enough_example = parse_lines-enough 20 30 cut_line (omega arith) (omega arith)

abbrev spaced_line : Text
spaced_line = codes "{\"ts_recv\":  \"now\"}"

now_found : get_string spaced_line (codes "ts_recv") ≡ some (codes "now")
unfolding get_string find_value find_after after_prefix skip_while take_while
now_found = refl

get_string-found_example :
    (pre : Text) × (spaces : Text) × (rest : Text) × (spaced_line
      ≡ pre ++ (needle (codes "ts_recv") ++ (spaces ++ b'"' ∷ (codes "now" ++ b'"' ∷ rest))))
    × All (λ c. is_space c ≡ true) spaces
    × All (λ c. not_quote c ≡ true) (codes "now")
get_string-found_example = get_string-found spaced_line (codes "ts_recv") (codes "now") now_found
