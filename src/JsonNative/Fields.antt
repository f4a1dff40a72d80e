-- ===== src/JsonNative/Fields.antt =====
-- What `ndp_parseHd` and `ndp_parseLine` of src/ingestion/JsonNativeDataParser.cpp share: the start of
-- a round of their loops, the kinds of values, and the casts to the enumerations.
use back_tester.Prelude.{ℕ, ◌%◌, Bool, ◌||◌, ◌==◌, [], ◌∷◌, Option, none, some, ℤ, if◌then◌else◌}
use back_tester.Event.{MarketDataEvent, Side, Action, RType}
use back_tester.JsonNative.Scan.{
  Text, skip_while, take_while, not_quote, advance, past_quote, starts, starts_digit, skip_val,
}
use back_tester.JsonNative.Numbers.{parse_u32}
use back_tester.JsonNative.Timestamp.{parse_iso8601_nanos}

-- What the two functions throw.
pub data ParseError : Type 0 where
  bad_timestamp missing_ts_recv : ParseError

-- The event so far and the pointer, or an exception and where it leaves the pointer.
pub data Parsed : Type 0 where
  ok : MarketDataEvent → Text → Parsed
  threw : ParseError → Text → Parsed

-- What comes next unless an exception was thrown.
abbrev pub and_then : (MarketDataEvent → Text → Parsed) → Parsed → Parsed
and_then next (Parsed.ok e p) = next e p
and_then next (Parsed.threw why p) = Parsed.threw why p

-- The start of a loop's round: the loop stops, at the end or at a closing brace; or it passes a
-- character that begins no key; or it has read the text of a key and passed what stands before the
-- value.
pub data Round : Type 0 where
  stops : Text → Round
  junk : Text → Round
  key : Text → Text → Round

unfoldable pub is_separator : ℕ → Bool
is_separator c = c == b' ' || c == b','

abbrev pub is_colon : ℕ → Bool
is_colon c = c == b':' || c == b' '

unfoldable pub next_item : Text → Round
next_item [] = Round.stops []
next_item (c ∷ p) =
    if c == b'}'
    then Round.stops (c ∷ p)
    else (if c == b'"'
        then Round.key (take_while not_quote p) (skip_while is_colon (past_quote p))
        else Round.junk p)

unfoldable pub next_round : Text → Round
next_round p = next_item (skip_while is_separator p)

-- A value that the parser takes only if it begins with a digit.
unfoldable pub number_field : (ℕ → MarketDataEvent) → MarketDataEvent → Text → Parsed
number_field store e p =
    if starts_digit p
    then (let (v, rest) = parse_u32 p in Parsed.ok (store v) rest)
    else Parsed.ok e (skip_val p)

-- A value that the parser takes only in quotes: `read` sees what follows the opening quote.
unfoldable pub quoted_field : (Text → Parsed) → MarketDataEvent → Text → Parsed
quoted_field read e p = if starts b'"' p then read (advance p) else Parsed.ok e (skip_val p)

-- The timestamp that stands before the closing quote; an empty one is not stored. Where it throws,
-- the pointer is at that quote.
abbrev pub stamp_value : (ℤ → MarketDataEvent) → Text → Option ℤ → Parsed
stamp_value store p none = Parsed.threw ParseError.bad_timestamp (skip_while not_quote p)
stamp_value store p (some t) = Parsed.ok (store t) (past_quote p)

abbrev pub stamp_text : (ℤ → MarketDataEvent) → MarketDataEvent → Text → Text → Parsed
stamp_text store e p [] = Parsed.ok e (past_quote p)
stamp_text store e p (c ∷ text) = stamp_value store p (parse_iso8601_nanos (c ∷ text))

unfoldable pub stamp : (ℤ → MarketDataEvent) → MarketDataEvent → Text → Parsed
stamp store e p = stamp_text store e p (take_while not_quote p)

-- `static_cast<RType>`
unfoldable pub rtype_of : ℕ → RType
rtype_of v =
    let b = v % 256 in
    if b == 0x00
    then RType.mbp0
    else (if b == 0x01
        then RType.mbp1
        else (if b == 0x0A
            then RType.mbp10
            else (if b == 0x12
                then RType.status
                else (if b == 0x13
                    then RType.definition
                    else (if b == 0x14
                        then RType.imbalance
                        else (if b == 0x15
                            then RType.error
                            else (if b == 0x16
                                then RType.symbol_mapping
                                else (if b == 0x17
                                    then RType.system
                                    else (if b == 0x18
                                        then RType.statistics
                                        else (if b == 0x20
                                            then RType.ohlcv1s
                                            else (if b == 0x21
                                                then RType.ohlcv1m
                                                else (if b == 0x22
                                                    then RType.ohlcv1h
                                                    else (if b == 0x23
                                                        then RType.ohlcv1d
                                                        else (if b == 0xA0
                                                            then RType.mbo
                                                            else (if b == 0xB1
                                                            then RType.cmbp1
                                                            else (if b == 0xC0
                                                            then RType.cbbo1s
                                                            else (if b == 0xC1
                                                            then RType.cbbo1m
                                                            else (if b == 0xC2
                                                            then RType.tcbbo
                                                            else (if b == 0xC3
                                                            then RType.bbo1s
                                                            else (if b == 0xC4
                                                            then RType.bbo1m
                                                            else RType.other b))))))))))))))))))))

-- `static_cast<Action>`
unfoldable pub action_of : ℕ → Action
action_of c =
    if c == b'A'
    then Action.add
    else (if c == b'M'
        then Action.modify
        else (if c == b'C'
            then Action.cancel
            else (if c == b'R'
                then Action.clear
                else (if c == b'T'
                    then Action.trade
                    else (if c == b'F'
                        then Action.fill
                        else (if c == b'N' then Action.none else Action.other c))))))

unfoldable pub side_of : ℕ → Side
side_of c =
    if c == b'B' then Side.buy else (if c == b'S' || c == b'A' then Side.sell else Side.none)
