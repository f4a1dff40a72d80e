-- ===== src/JsonNative/Line/Values.antt =====
-- The values of a line and the line itself, in src/ingestion/JsonNativeDataParser.cpp: reading them
-- never moves the pointer back, and a line that is read moves it forward.
use back_tester.Prelude.{ℕ, zero, suc, ◌≤◌, ◌<◌, ◌==◌, [], ◌∷◌, length, arith, Bool-cases, inl, inr}
use back_tester.Event.{MarketDataEvent, default_event}
use back_tester.JsonNative.Scan.{Text, length-past_quote}
use back_tester.JsonNative.Numbers.{parse_u64, parse_i32}
use back_tester.JsonNative.Numbers.Bounds.{parse_u64-length, parse_i32-length}
use back_tester.JsonNative.Timestamp.{drop}
use back_tester.JsonNative.Fields.{Parsed, and_then}
use back_tester.JsonNative.Line.{
  object_loop, side_value, side_or_size, quoted_price, price_or_flags, action_value, action_field,
  ts_recv_field, quoted_order_id, order_id_or_sequence, channel_id_field, ts_in_delta_field,
  line_field, complete, parse_line,
}
use back_tester.JsonNative.Line.Moves.{
  MovesOn, forward, if-MovesOn, skip_val-MovesOn, parse_hd-MovesOn, length-past_brace,
  and_then-MovesOn, object_loop-MovesOn,
}

side_value-MovesOn : (e : MarketDataEvent) (p : Text) → MovesOn p (side_value e p)
unfolding side_value
side_value-MovesOn e [] = omega arith
side_value-MovesOn e (c ∷ p) = omega (arith, length-past_quote p)

action_value-MovesOn : (e : MarketDataEvent) (p : Text) → MovesOn p (action_value e p)
unfolding action_value
action_value-MovesOn e [] = omega arith
action_value-MovesOn e (c ∷ p) = omega (arith, length-past_quote p)

quoted_price-MovesOn : (e : MarketDataEvent) (p : Text) → MovesOn p (quoted_price e p)
unfolding quoted_price
quoted_price-MovesOn e p = ground (arith, length-past_quote p)

quoted_order_id-MovesOn : (e : MarketDataEvent) (p : Text) → MovesOn p (quoted_order_id e p)
unfolding quoted_order_id
quoted_order_id-MovesOn e p = omega (arith, length-past_quote (parse_u64 p).1, parse_u64-length p)

length-drop : (n : ℕ) (p : Text) → length (drop n p) ≤ length p
unfolding drop
length-drop zero p = omega arith
length-drop (suc n) [] = omega arith
length-drop (suc n) (c ∷ p) = omega (arith, length-drop n p)

null-MovesOn : (e : MarketDataEvent) (p : Text) → MovesOn p (Parsed.ok e (drop 4 p))
null-MovesOn e p = length-drop 4 p

i32-MovesOn : (e : MarketDataEvent) (p : Text) → MovesOn p (Parsed.ok e (parse_i32 p).1)
i32-MovesOn e p = parse_i32-length p

ruleset values = (
  forward, side_value-MovesOn, action_value-MovesOn, quoted_price-MovesOn, quoted_order_id-MovesOn,
  null-MovesOn, i32-MovesOn,
)

side_or_size-MovesOn :
    (name : Text) (e : MarketDataEvent) (p : Text) → MovesOn p (side_or_size name e p)
unfolding side_or_size
side_or_size-MovesOn name e p = search values

price_or_flags-MovesOn :
    (name : Text) (e : MarketDataEvent) (p : Text) → MovesOn p (price_or_flags name e p)
unfolding price_or_flags
price_or_flags-MovesOn name e p = search values

action_field-MovesOn :
    (name : Text) (e : MarketDataEvent) (p : Text) → MovesOn p (action_field name e p)
unfolding action_field
action_field-MovesOn name e p = search values

ts_recv_field-MovesOn :
    (name : Text) (e : MarketDataEvent) (p : Text) → MovesOn p (ts_recv_field name e p)
unfolding ts_recv_field
ts_recv_field-MovesOn name e p = search values

order_id_or_sequence-MovesOn :
    (name : Text) (e : MarketDataEvent) (p : Text) → MovesOn p (order_id_or_sequence name e p)
unfolding order_id_or_sequence
order_id_or_sequence-MovesOn name e p = search values

channel_id_field-MovesOn :
    (name : Text) (e : MarketDataEvent) (p : Text) → MovesOn p (channel_id_field name e p)
unfolding channel_id_field
channel_id_field-MovesOn name e p = search values

ts_in_delta_field-MovesOn :
    (name : Text) (e : MarketDataEvent) (p : Text) → MovesOn p (ts_in_delta_field name e p)
unfolding ts_in_delta_field
ts_in_delta_field-MovesOn name e p = search values

ruleset fields = (
  if-MovesOn, skip_val-MovesOn, parse_hd-MovesOn, side_or_size-MovesOn, price_or_flags-MovesOn,
  action_field-MovesOn, ts_recv_field-MovesOn, order_id_or_sequence-MovesOn,
  channel_id_field-MovesOn, ts_in_delta_field-MovesOn,
)

pub line_field-MovesOn :
    (name : Text) (e : MarketDataEvent) (p : Text) → MovesOn p (line_field name e p)
unfolding line_field
line_field-MovesOn name e p = search fields depth 12

complete-MovesOn : (e : MarketDataEvent) (p : Text) → MovesOn p (complete e p)
unfolding complete
complete-MovesOn e p = ground (arith, length-past_brace p)

-- A character was passed where an event is returned.
abbrev pub Consumes : Text → Parsed → Type 0
Consumes p (Parsed.ok e q) = length q < length p
Consumes p (Parsed.threw why q) = length q ≤ length p

stronger : (p : Text) (c : ℕ) (r : Parsed) → MovesOn p r → Consumes (c ∷ p) r
stronger p c (Parsed.ok e q) h = omega (arith, h)
stronger p c (Parsed.threw why q) h = omega (arith, h)

-- A line that gives an event takes a character at least, and one that throws gives none back.
pub parse_line-Consumes : (p : Text) → Consumes p (parse_line p)
unfolding parse_line
parse_line-Consumes [] = omega arith
parse_line-Consumes (c ∷ p) = elim (Bool-cases (c == b'{')) [
  | inl brace ↦ rw brace (
      stronger p c (and_then complete (object_loop line_field (suc (length p)) default_event p)) (
        and_then-MovesOn complete p complete-MovesOn
          (object_loop line_field (suc (length p)) default_event p)
          (object_loop-MovesOn line_field line_field-MovesOn (suc (length p)) default_event p)))
  | inr other ↦ rw other (omega arith)
]
