-- ===== src/JsonSimple.antt =====
-- src/ingestion/JsonSimpleDataParser.cpp: the parser of `.mbo.json` files that looks each key up in its
-- line. What it calls of the C and C++ libraries is a parameter. `none` stands for an exception, after
-- which `parse_inner` skips the line.
pub mod Lookup
pub mod Line
use back_tester.Prelude.{
  ℕ, zero, suc, ◌+◌, ◌-◌, ◌*◌, ◌^◌, ◌%◌, Bool, true, false, not, ◌||◌, ◌&&◌, ◌==◌, List, [], ◌∷◌,
  ◌++◌, Option, none, some, ℤ, pos, ◌+ℤ◌, if◌then◌else◌,
}
use back_tester.Event.{MarketDataEvent, default_event}
use back_tester.JsonNative.Scan.{
  Text, skip_while, take_while, is_space, not_quote, is_digit, starts,
}
use back_tester.JsonNative.Numbers.{scale, signed32}
use back_tester.JsonNative.Timestamp.{short_fraction}
use back_tester.JsonNative.Fields.{rtype_of, action_of, side_of}
use back_tester.JsonNative.Print.{codes}

-- `strptime` with `timegm`: the seconds and what is left of the text; `stod` times 1e9, cut to an
-- integer; `stoul`, `stoull` and `stol`. Each is `none` where it fails or throws.
pub record Library : Type 0 where
  pub strptime_timegm : Text → Option (ℤ × Text)
  pub stod_nanos : Text → Option ℤ
  pub stoul : Text → Option ℕ
  pub stoull : Text → Option ℕ
  pub stol : Text → Option ℤ

-- What follows the prefix, and what follows the first place where the needle stands.
unfoldable pub after_prefix : Text → Text → Option Text
after_prefix [] t = some t
after_prefix (c ∷ n) [] = none
after_prefix (c ∷ n) (d ∷ t) = if c == d then after_prefix n t else none

abbrev pub or_else : Option Text → Option Text → Option Text
or_else (some r) later = some r
or_else none later = later

unfoldable pub find_after : Text → Text → Option Text
find_after needle [] = after_prefix needle []
find_after needle (c ∷ t) = or_else (after_prefix needle (c ∷ t)) (find_after needle t)

abbrev pub needle : Text → Text
needle key = b'"' ∷ key ++ b'"' ∷ b':' ∷ []

abbrev pub skip_spaces : Option Text → Text
unfolding skip_while
skip_spaces none = []
skip_spaces (some rest) = skip_while is_space rest

-- `findValue`
unfoldable pub find_value : Text → Text → Text
find_value line key = skip_spaces (find_after (needle key) line)

-- What stands before the next quote, if there is one.
abbrev pub ended : Text → Text → Option Text
ended text [] = none
ended text (c ∷ rest) = some text

abbrev pub unquoted : Text → Option Text
unquoted [] = none
unquoted (c ∷ rest) =
    if c == b'"' then ended (take_while not_quote rest) (skip_while not_quote rest) else none

-- `getString`
unfoldable pub get_string : Text → Text → Option Text
get_string line key = unquoted (find_value line key)

abbrev pub is_numeric : ℕ → Bool
is_numeric c = c == b'-' || is_digit c

abbrev pub numeric : Text → Option Text
numeric [] = none
numeric (c ∷ rest) = if is_numeric c then some (take_while is_numeric (c ∷ rest)) else none

-- `getNumericRaw`
unfoldable pub get_numeric_raw : Text → Text → Option Text
get_numeric_raw line key = numeric (find_value line key)

abbrev pub with_first : ℕ → Option Text → Option Text
with_first c none = none
with_first c (some t) = some (c ∷ t)

-- The object up to its closing brace, at a depth; nothing where it does not close.
unfoldable pub object_at : ℕ → Text → Option Text
object_at depth [] = none
object_at depth (c ∷ t) =
    let deeper = with_first c (object_at (suc depth) t) in
    let same = with_first c (object_at depth t) in
    let shallower = with_first c (object_at (depth - 1) t) in
    if c == b'{'
    then deeper
    else (if c == b'}' then (if depth == 1 then some (c ∷ []) else shallower) else same)

abbrev pub or_empty : Option Text → Text
or_empty none = []
or_empty (some t) = t

-- `getObject`
unfoldable pub get_object : Text → Text → Text
get_object line key =
    let rest = find_value line key in if starts b'{' rest then or_empty (object_at 0 rest) else []

-- `isNull`
unfoldable pub is_null : Text → Text → Bool
is_null line key = elim (after_prefix (codes "null") (find_value line key)) [
  | none ↦ false
  | some rest ↦ true
]
