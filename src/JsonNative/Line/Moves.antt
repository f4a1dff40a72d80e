-- ===== src/JsonNative/Line/Moves.antt =====
-- The scans of src/ingestion/JsonNativeDataParser.cpp over one line never move the pointer back, and
-- each round of their loops moves it forward.
use back_tester.Prelude.{
  ℕ, zero, suc, ◌+◌, ◌≤◌, Bool, true, false, [], ◌∷◌, length, arith, if◌then◌else◌, ℤ,
}
use back_tester.Event.{MarketDataEvent}
use back_tester.JsonNative.Scan.{
  Text, not_quote, skip_while, advance, past_quote, starts, skip_val, length-skip_while,
  length-advance, length-past_quote, length-skip_val,
}
use back_tester.JsonNative.Numbers.Bounds.{parse_u32-length}
use back_tester.JsonNative.Fields.{
  Parsed, Round, and_then, is_separator, is_colon, next_item, next_round, number_field,
  quoted_field, stamp,
}
use back_tester.JsonNative.Line.{hd_field, take_round, object_loop, past_brace, parse_hd}

-- The pointer after a call, whether it returns or throws.
abbrev pub rest_of : Parsed → Text
rest_of (Parsed.ok e p) = p
rest_of (Parsed.threw why p) = p

-- The pointer after the start of a round.
abbrev pub round_rest : Round → Text
round_rest (Round.stops q) = q
round_rest (Round.junk q) = q
round_rest (Round.key name q) = q

-- A round that does not stop the loop passes a character.
abbrev pub round_cost : Round → ℕ
round_cost (Round.stops q) = 0
round_cost _ = 1

next_item-length :
    (p : Text) → round_cost (next_item p) + length (round_rest (next_item p)) ≤ length p
unfolding next_item
next_item-length [] = omega arith
next_item-length (c ∷ p) =
    ground (arith, length-skip_while is_colon (past_quote p), length-past_quote p)

pub next_round-length :
    (p : Text) → round_cost (next_round p) + length (round_rest (next_round p)) ≤ length p
unfolding next_round
next_round-length p =
    omega (arith, next_item-length (skip_while is_separator p), length-skip_while is_separator p)

-- The call moves the pointer from `p` on, or leaves it.
abbrev pub MovesOn : Text → Parsed → Type 0
MovesOn p r = length (rest_of r) ≤ length p

pub if-MovesOn :
    (b : Bool) (p : Text) (r s : Parsed)
    → MovesOn p r
    → MovesOn p s
    → MovesOn p (if b then r else s)
if-MovesOn true p r s hr hs = hr
if-MovesOn false p r s hr hs = hs

pub skip_val-MovesOn : (e : MarketDataEvent) (p : Text) → MovesOn p (Parsed.ok e (skip_val p))
skip_val-MovesOn e p = length-skip_val p

pub number_field-MovesOn :
    (store : ℕ → MarketDataEvent) (e : MarketDataEvent) (p : Text)
    → MovesOn p (number_field store e p)
unfolding number_field
number_field-MovesOn store e p = ground (arith, parse_u32-length p, length-skip_val p)

pub quoted_field-MovesOn :
    (read : Text → Parsed) (e : MarketDataEvent) (p : Text)
    → MovesOn (advance p) (read (advance p))
    → MovesOn p (quoted_field read e p)
unfolding quoted_field
quoted_field-MovesOn read e p h =
    if-MovesOn (starts b'"' p) p (read (advance p)) (Parsed.ok e (skip_val p))
      (omega (arith, length-advance p)) (length-skip_val p)

pub stamp-MovesOn :
    (store : ℤ → MarketDataEvent) (e : MarketDataEvent) (p : Text) → MovesOn p (stamp store e p)
unfolding stamp
stamp-MovesOn store e p = ground (arith, length-past_quote p, length-skip_while not_quote p)

pub ruleset forward =
    (if-MovesOn, skip_val-MovesOn, number_field-MovesOn, quoted_field-MovesOn, stamp-MovesOn)

pub hd_field-MovesOn :
    (name : Text) (e : MarketDataEvent) (p : Text) → MovesOn p (hd_field name e p)
unfolding hd_field
hd_field-MovesOn name e p = search forward

pub length-past_brace : (p : Text) → length (past_brace p) ≤ length p
unfolding past_brace
length-past_brace p = ground (arith, length-advance p)

pub and_then-MovesOn :
    (next : MarketDataEvent → Text → Parsed) (p : Text)
    → ((e : MarketDataEvent) (q : Text) → MovesOn q (next e q))
    → (r : Parsed) → MovesOn p r
    → MovesOn p (and_then next r)
and_then-MovesOn next p step (Parsed.ok e q) h = omega (arith, step e q)
and_then-MovesOn next p step (Parsed.threw why q) h = h

-- The loop moves on where the reading of a value does.
module _ (field : Text → MarketDataEvent → Text → Parsed)
    (field_moves : (name : Text) (e : MarketDataEvent) (p : Text)
      → MovesOn p (field name e p)) where
  take_round-MovesOn :
      (again : MarketDataEvent → Text → Parsed) (p : Text)
      → ((e : MarketDataEvent) (q : Text) → MovesOn q (again e q))
      → (e : MarketDataEvent) (r : Round) → length (round_rest r) ≤ length p
      → MovesOn p (take_round field again e r)
  take_round-MovesOn again p step e (Round.stops q) h = h
  take_round-MovesOn again p step e (Round.junk q) h = omega (arith, step e q)
  take_round-MovesOn again p step e (Round.key name q) h =
      and_then-MovesOn again p step (field name e q) (omega (arith, field_moves name e q))

  pub object_loop-MovesOn :
      (fuel : ℕ) (e : MarketDataEvent) (p : Text) → MovesOn p (object_loop field fuel e p)
  unfolding object_loop
  object_loop-MovesOn zero e p = omega arith
  object_loop-MovesOn (suc fuel) e p =
      take_round-MovesOn (object_loop field fuel) p (object_loop-MovesOn fuel) e (next_round p)
        (omega (arith, next_round-length p))

pub parse_hd-MovesOn : (e : MarketDataEvent) (p : Text) → MovesOn p (parse_hd e p)
unfolding parse_hd
parse_hd-MovesOn e p =
    if-MovesOn (starts b'{' p) p _ (Parsed.ok e p)
      (and_then-MovesOn _ p (λ e' q. length-past_brace q)
        (object_loop hd_field (length p) e (advance p))
        (omega (
          arith,
          object_loop-MovesOn hd_field hd_field-MovesOn (length p) e (advance p),
          length-advance p,
        )))
      (omega arith)
