-- ===== src/JsonNative/Print/Line.antt =====
-- `ndp_parseLine` of src/ingestion/JsonNativeDataParser.cpp reads every printed line.
use back_tester.Prelude.{
  ℕ, suc, ◌≤◌, ◌<◌, ◌≡◌, refl, ap, ◌∙◌, List, [], ◌∷◌, ◌++◌, All, length, pos, ◌==ℤ◌, arith,
  if◌then◌else◌, ℤ, negsuc, pos_part, neg_part, ◌+◌, ◌^◌,
}
use back_tester.Event.{MarketDataEvent, default_event, Action, Side}
use back_tester.JsonNative.Scan.{Text, skip_while, past_quote}
use back_tester.JsonNative.Timestamp.{drop}
use back_tester.JsonNative.Timestamp.RoundTrip.{print_moment}
use back_tester.JsonNative.Numbers.RoundTrip.{print_int, IsInt32}
use back_tester.JsonNative.Numbers.Prices.{print_price}
use back_tester.JsonNative.Fields.{action_of, side_of, ParseError, Parsed, quoted_field}
use back_tester.JsonNative.Line.{
  line_field, object_loop, parse_line, past_brace, complete, side_or_size, side_value,
  price_or_flags, action_field, action_value, ts_recv_field, order_id_or_sequence, channel_id_field,
}
use back_tester.JsonNative.Print.{
  LineField, IsLineField, print_line_field, set_line_field, print_hd_field, print_fields, set_all,
  codes, print_number, in_quotes, action_letter, side_letter, IsNamedAction,
}
use back_tester.JsonNative.Print.Steps.{IsTail, number_field-print, number-IsValue, stamp-print}
use back_tester.JsonNative.Print.Lists.{
  object_loop-key, object_loop-fields, length-print_fields, print_fields-append,
}
use back_tester.JsonNative.Print.Hd.{parse_hd-print}
use back_tester.JsonNative.Print.Values.{
  price-print, order_id-print, symbol-print, ts_in_delta-print, int-IsValue,
}

pub action_of-letter : (a : Action) → IsNamedAction a → action_of (action_letter a) ≡ a
unfolding action_of action_letter
action_of-letter (Action.other c) h = absurd h
action_of-letter a h = refl

pub side_of-letter : (s : Side) → side_of (side_letter s) ≡ s
unfolding side_of side_letter
side_of-letter Side.buy = refl
side_of-letter Side.sell = refl
side_of-letter Side.none = refl

-- An integer of a magnitude below 2^31 fits in 32 bits.
magnitude-IsInt32 : (z : ℤ) → pos_part z + neg_part z < 2 ^ 31 → IsInt32 z
magnitude-IsInt32 (pos n) h = omega (arith, h)
magnitude-IsInt32 (negsuc n) h = omega (arith, h)

line_step :
    (fuel : ℕ) (e : MarketDataEvent) (f : LineField) (rest : Text)
    → IsLineField f
    → IsTail rest
    → object_loop line_field (suc fuel) e (print_line_field f ++ rest)
      ≡ object_loop line_field fuel (set_line_field e f) rest
unfolding line_field print_line_field set_line_field side_or_size side_value price_or_flags
    action_field action_value ts_recv_field order_id_or_sequence channel_id_field quoted_field
    past_quote skip_while drop
line_step fuel e (LineField.hd fs) rest h tail =
    object_loop-key line_field fuel e _ (codes "hd")
      (b'{' ∷ print_fields print_hd_field fs (b'}' ∷ []) ++ rest) rest refl refl
      (rw print_fields-append (parse_hd-print e fs rest h))
line_step fuel e (LineField.ts_recv t) rest h tail =
    object_loop-key line_field fuel e _ (codes "ts_recv") (in_quotes (print_moment t) ++ rest) rest
      refl refl (stamp-print _ e t rest h)
line_step fuel e (LineField.action a) rest h tail =
    object_loop-key line_field fuel e _ (codes "action") (in_quotes (action_letter a ∷ []) ++ rest)
      rest refl refl (ap (λ x. Parsed.ok (record e { action = x }) rest) (action_of-letter a h))
line_step fuel e (LineField.side s) rest h tail =
    object_loop-key line_field fuel e _ (codes "side") (in_quotes (side_letter s ∷ []) ++ rest) rest
      refl refl (ap (λ x. Parsed.ok (record e { side = x }) rest) (side_of-letter s))
line_step fuel e (LineField.price k z) rest h tail =
    object_loop-key line_field fuel e _ (codes "price") (in_quotes (print_price k z) ++ rest) rest
      refl refl (price-print e k z rest h)
line_step fuel e LineField.null_price rest h tail =
    object_loop-key line_field fuel e e (codes "price") (codes "null" ++ rest) rest refl refl refl
line_step fuel e (LineField.ts_in_delta k z) rest h tail =
    object_loop-key line_field fuel e _ (codes "ts_in_delta") (print_int (suc k) z ++ rest) rest
      refl (int-IsValue k z rest) (ts_in_delta-print e k z rest (magnitude-IsInt32 z h.0) h.1 tail)
line_step fuel e (LineField.size n) rest h tail =
    object_loop-key line_field fuel e _ (codes "size") (print_number n ++ rest) rest refl
      (number-IsValue n rest) (number_field-print _ e n rest h (omega arith) tail)
line_step fuel e (LineField.flags n) rest h tail =
    object_loop-key line_field fuel e _ (codes "flags") (print_number n ++ rest) rest refl
      (number-IsValue n rest)
      (number_field-print _ e n rest h (omega arith) tail
        ∙ ap (λ (v : ℕ). Parsed.ok (record e { flags = v }) rest) (omega (arith, h.1)))
line_step fuel e (LineField.channel_id n) rest h tail =
    object_loop-key line_field fuel e _ (codes "channel_id") (print_number n ++ rest) rest refl
      (number-IsValue n rest)
      (number_field-print _ e n rest h (omega arith) tail
        ∙ ap (λ (v : ℕ). Parsed.ok (record e { channel_id = v }) rest) (omega (arith, h.1)))
line_step fuel e (LineField.sequence n) rest h tail =
    object_loop-key line_field fuel e _ (codes "sequence") (print_number n ++ rest) rest refl
      (number-IsValue n rest) (number_field-print _ e n rest h (omega arith) tail)
line_step fuel e (LineField.order_id n) rest h tail =
    object_loop-key line_field fuel e _ (codes "order_id") (in_quotes (print_number n) ++ rest) rest
      refl refl (order_id-print e n rest h)
line_step fuel e (LineField.symbol s) rest h tail =
    object_loop-key line_field fuel e e (codes "symbol") (in_quotes s ++ rest) rest refl refl
      (ap (Parsed.ok e) (symbol-print s rest h))

print_line_field-length : (f : LineField) → 0 < length (print_line_field f)
unfolding print_line_field
print_line_field-length (LineField.hd fs) = omega arith
print_line_field-length f = ground arith

-- A printed line.
unfoldable pub print_line : List LineField → Text → Text
print_line fs rest = b'{' ∷ print_fields print_line_field fs (b'}' ∷ rest)

pub length-print_line :
    (fs : List LineField) (rest : Text) → suc (length rest) ≤ length (print_line fs rest)
unfolding print_line
length-print_line fs rest = omega (
  arith,
  length-print_fields line_field print_line_field set_line_field (λ f. IsLineField f)
      print_line_field-length line_step fs (b'}' ∷ rest),
)

-- The event of its fields.
unfoldable pub event_of : List LineField → MarketDataEvent
event_of fs = set_all set_line_field default_event fs

-- A printed line, its fields in any order and repeated at will, is parsed to the event that its fields
-- set one after another, the pointer after its closing brace; only where ts_recv stays 0 it throws.
pub parse_line-print :
    (fs : List LineField) (rest : Text)
    → All IsLineField fs
    → parse_line (print_line fs rest) ≡ (
        if (event_of fs).ts_recv ==ℤ pos 0
        then Parsed.threw ParseError.missing_ts_recv rest
        else Parsed.ok (event_of fs) rest)
unfolding parse_line print_line event_of complete past_brace
parse_line-print fs rest h =
    rw
      (object_loop-fields line_field print_line_field set_line_field (λ f. IsLineField f)
        print_line_field-length line_step fs
        (suc (length (print_fields print_line_field fs (b'}' ∷ rest)))) default_event rest
        (omega (
          arith,
          length-print_fields line_field print_line_field set_line_field (λ f. IsLineField f)
              print_line_field-length line_step fs (b'}' ∷ rest),
        ))
        h)
      refl
