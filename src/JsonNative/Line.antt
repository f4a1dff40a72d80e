-- ===== src/JsonNative/Line.antt =====
-- `ndp_parseHd` and `ndp_parseLine` of src/ingestion/JsonNativeDataParser.cpp: one forward scan over
-- the line's object and over the object of its key hd. A key is told by its length and some of its
-- characters. Each loop runs on fuel: every round passes at least a character, so that one more than
-- the characters left is enough. Where `p += 4` passes the end, the pointer is at the end here.
pub mod Moves
pub mod Values
pub mod Ends
use back_tester.Prelude.{
  ℕ, zero, suc, ◌^◌, ◌%◌, Bool, ◌||◌, ◌&&◌, ◌==◌, [], ◌∷◌, length, get_or, pos, ◌==ℤ◌,
  if◌then◌else◌,
}
use back_tester.Event.{MarketDataEvent, default_event}
use back_tester.JsonNative.Scan.{
  Text, not_quote, take_while, advance, past_quote, starts, starts_digit, skip_val,
}
use back_tester.JsonNative.Numbers.{parse_u32, parse_u64, parse_i32, price_value}
use back_tester.JsonNative.Timestamp.{drop}
use back_tester.JsonNative.Fields.{
  ParseError, Parsed, Round, and_then, next_round, number_field, quoted_field, stamp, rtype_of,
  action_of, side_of,
}

-- The `switch` of `ndp_parseHd` over the length of the key.
unfoldable pub hd_field : Text → MarketDataEvent → Text → Parsed
hd_field name e p =
    let n = length name in
    if n == 5
    then number_field (λ v. record e { rtype = rtype_of v }) e p
    else (if n == 8
        then quoted_field (stamp (λ t. record e { ts_event = t }) e) e p
        else (if n == 12
            then number_field (λ v. record e { publisher_id = v % 2 ^ 16 }) e p
            else (if n == 13
                then number_field (λ v. record e { instrument_id = v }) e p
                else Parsed.ok e (skip_val p))))

-- A round of the loop of the two functions, which stops at the end or before a closing brace.
abbrev pub take_round :
    (Text → MarketDataEvent → Text → Parsed)
    → (MarketDataEvent → Text → Parsed)
    → MarketDataEvent
    → Round
    → Parsed
take_round field again e (Round.stops q) = Parsed.ok e q
take_round field again e (Round.junk q) = again e q
take_round field again e (Round.key name q) = and_then again (field name e q)

unfoldable pub object_loop :
    (Text → MarketDataEvent → Text → Parsed) → ℕ → MarketDataEvent → Text → Parsed
object_loop field zero e p = Parsed.ok e p
object_loop field (suc fuel) e p = take_round field (object_loop field fuel) e (next_round p)

unfoldable pub past_brace : Text → Text
past_brace q = if starts b'}' q then advance q else q

-- `ndp_parseHd`
unfoldable pub parse_hd : MarketDataEvent → Text → Parsed
parse_hd e p =
    if starts b'{' p
    then and_then (λ e' q. Parsed.ok e' (past_brace q))
        (object_loop hd_field (length p) e (advance p))
    else Parsed.ok e p

-- The cases of the `switch` of `ndp_parseLine`.
unfoldable pub side_value : MarketDataEvent → Text → Parsed
side_value e [] = Parsed.ok e []
side_value e (c ∷ p) = Parsed.ok (record e { side = side_of c }) (past_quote p)

unfoldable pub side_or_size : Text → MarketDataEvent → Text → Parsed
side_or_size name e p =
    if get_or name 0 0 == b's'
    then (if get_or name 2 0 == b'd'
        then quoted_field (side_value e) e p
        else number_field (λ v. record e { size = v }) e p)
    else Parsed.ok e (skip_val p)

abbrev pub price_text : MarketDataEvent → Text → Text → Parsed
price_text e p [] = Parsed.ok e (past_quote p)
price_text e p (c ∷ text) = Parsed.ok (record e { price = price_value (c ∷ text) }) (past_quote p)

unfoldable pub quoted_price : MarketDataEvent → Text → Parsed
quoted_price e p = price_text e p (take_while not_quote p)

unfoldable pub price_or_flags : Text → MarketDataEvent → Text → Parsed
price_or_flags name e p =
    if get_or name 0 0 == b'p'
    then (if starts b'n' p then Parsed.ok e (drop 4 p) else quoted_field (quoted_price e) e p)
    else (if get_or name 0 0 == b'f'
        then number_field (λ v. record e { flags = v % 2 ^ 8 }) e p
        else Parsed.ok e (skip_val p))

unfoldable pub action_value : MarketDataEvent → Text → Parsed
action_value e [] = Parsed.ok e []
action_value e (c ∷ p) = Parsed.ok (record e { action = action_of c }) (past_quote p)

unfoldable pub action_field : Text → MarketDataEvent → Text → Parsed
action_field name e p =
    if get_or name 0 0 == b'a' then quoted_field (action_value e) e p else Parsed.ok e (skip_val p)

unfoldable pub ts_recv_field : Text → MarketDataEvent → Text → Parsed
ts_recv_field name e p =
    if get_or name 0 0 == b't'
    then quoted_field (stamp (λ t. record e { ts_recv = t }) e) e p
    else Parsed.ok e (skip_val p)

unfoldable pub quoted_order_id : MarketDataEvent → Text → Parsed
quoted_order_id e p =
    let (v, rest) = parse_u64 p in Parsed.ok (record e { order_id = v }) (past_quote rest)

unfoldable pub order_id_or_sequence : Text → MarketDataEvent → Text → Parsed
order_id_or_sequence name e p =
    if get_or name 0 0 == b'o'
    then quoted_field (quoted_order_id e) e p
    else (if get_or name 0 0 == b's'
        then number_field (λ v. record e { sequence = v }) e p
        else Parsed.ok e (skip_val p))

unfoldable pub channel_id_field : Text → MarketDataEvent → Text → Parsed
channel_id_field name e p =
    if get_or name 0 0 == b'c'
    then number_field (λ v. record e { channel_id = v % 2 ^ 16 }) e p
    else Parsed.ok e (skip_val p)

unfoldable pub ts_in_delta_field : Text → MarketDataEvent → Text → Parsed
ts_in_delta_field name e p =
    if get_or name 0 0 == b't' && (starts b'-' p || starts_digit p)
    then (let (v, rest) = parse_i32 p in Parsed.ok (record e { ts_in_delta = v }) rest)
    else Parsed.ok e (skip_val p)

-- The `switch` over the length of the key.
unfoldable pub line_field : Text → MarketDataEvent → Text → Parsed
line_field name e p =
    let n = length name in
    if n == 2
    then (if get_or name 0 0 == b'h' then parse_hd e p else Parsed.ok e (skip_val p))
    else (if n == 4
        then side_or_size name e p
        else (if n == 5
            then price_or_flags name e p
            else (if n == 6
                then action_field name e p
                else (if n == 7
                    then ts_recv_field name e p
                    else (if n == 8
                        then order_id_or_sequence name e p
                        else (if n == 10
                            then channel_id_field name e p
                            else (if n == 11
                                then ts_in_delta_field name e p
                                else Parsed.ok e (skip_val p))))))))

-- The test after the loop: an event needs its ts_recv.
unfoldable pub complete : MarketDataEvent → Text → Parsed
complete e p =
    if e.ts_recv ==ℤ pos 0
    then Parsed.threw ParseError.missing_ts_recv (past_brace p)
    else Parsed.ok e (past_brace p)

-- `ndp_parseLine`
unfoldable pub parse_line : Text → Parsed
parse_line p =
    if starts b'{' p
    then and_then complete (object_loop line_field (length p) default_event (advance p))
    else Parsed.threw ParseError.missing_ts_recv p
