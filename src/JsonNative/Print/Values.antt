-- ===== src/JsonNative/Print/Values.antt =====
-- The values of a line, printed, and what the `switch` of `ndp_parseLine` in
-- src/ingestion/JsonNativeDataParser.cpp makes of them.
use back_tester.Prelude.{
  ℕ, suc, ◌+◌, ◌/◌, ◌%◌, ◌^◌, ◌<◌, ◌≡◌, refl, ap, ◌∙◌, [], ◌∷◌, ◌++◌, append_assoc, All, length,
  length-append, Bool, true, false, ◌||◌, pos, negsuc, ℤ, pos_part, neg_part, arith,
}
use back_tester.Event.{MarketDataEvent}
use back_tester.JsonNative.Scan.{
  Text, not_quote, skip_while, skip_val, past_quote, take_while-run, past_quote-run, starts,
  starts_digit,
}
use back_tester.JsonNative.Numbers.{price_value}
use back_tester.JsonNative.Numbers.RoundTrip.{
  print_digits, print_int, IsInt32, parse_u64-print, parse_i32-print,
}
use back_tester.JsonNative.Numbers.Prices.{print_price, price_value-print, print_digits-All}
use back_tester.JsonNative.Fields.{Parsed, quoted_field}
use back_tester.JsonNative.Line.{quoted_price, quoted_order_id, ts_in_delta_field}
use back_tester.JsonNative.Print.{codes, print_number, in_quotes, Number, IsBelow}
use back_tester.JsonNative.Print.Steps.{
  IsTail, IsValue, number-IsValue, quoted_field-print, digit_no_quote, no_quote_after,
  number-starts_digit,
}

price-All : (k : ℕ) (z : ℤ) → All (λ c. not_quote c ≡ true) (print_price k z)
unfolding print_price
price-All k (pos n) =
    no_quote_after k (n / 10 ^ 9) _ (refl, print_digits-All _ 9 (n % 10 ^ 9) digit_no_quote)
price-All k (negsuc n) = (
  refl,
  no_quote_after k (suc n / 10 ^ 9) _ (refl, print_digits-All _ 9 (suc n % 10 ^ 9) digit_no_quote),
)

price-length : (k : ℕ) (z : ℤ) → 0 < length (print_price k z)
unfolding print_price
price-length k (pos n) =
    omega (arith, length-append (print_digits k (n / 10 ^ 9)) (b'.' ∷ print_digits 9 (n % 10 ^ 9)))
price-length k (negsuc n) = omega arith

quoted_price-run :
    (e : MarketDataEvent) (text rest : Text)
    → 0 < length text
    → All (λ c. not_quote c ≡ true) text
    → quoted_price e (text ++ b'"' ∷ rest) ≡ Parsed.ok (record e { price = price_value text }) rest
unfolding quoted_price
quoted_price-run e [] rest h free = absurd (omega (arith, h))
quoted_price-run e (c ∷ text) rest h free =
    rw
      (take_while-run not_quote (c ∷ text) b'"' rest free refl, past_quote-run (c ∷ text) rest free)
      refl

pub price-print :
    (e : MarketDataEvent) (k : ℕ) (z : ℤ) (rest : Text)
    → ((pos_part z + neg_part z) / 10 ^ 9 < 10 ^ k) × (pos_part z + neg_part z < 2 ^ 63)
    → quoted_field (quoted_price e) e (in_quotes (print_price k z) ++ rest)
      ≡ Parsed.ok (record e { price = z }) rest
price-print e k z rest h =
    quoted_field-print (quoted_price e) e (print_price k z) rest
    ∙ quoted_price-run e (print_price k z) rest (price-length k z) (price-All k z)
    ∙ ap (λ p. Parsed.ok (record e { price = p }) rest) (price_value-print k z h)

pub order_id-print :
    (e : MarketDataEvent) (n : Number) (rest : Text)
    → IsBelow (2 ^ 64) n
    → quoted_field (quoted_order_id e) e (in_quotes (print_number n) ++ rest)
      ≡ Parsed.ok (record e { order_id = n.value }) rest
unfolding quoted_order_id past_quote skip_while
order_id-print e n rest h =
    quoted_field-print (quoted_order_id e) e (print_number n) rest
    ∙ rw (parse_u64-print (suc n.more) n.value (b'"' ∷ rest) h.0 refl)
        (ap (λ (v : ℕ). Parsed.ok (record e { order_id = v }) rest) (omega (arith, h.1)))

pub symbol-print :
    (s rest : Text) → All (λ c. not_quote c ≡ true) s → skip_val (in_quotes s ++ rest) ≡ rest
unfolding skip_val skip_while
symbol-print s rest h = rw append_assoc (past_quote-run s rest h)

or-true : (b : Bool) → (b || true) ≡ true
or-true true = refl
or-true false = refl

int_begins :
    (k : ℕ) (z : ℤ) (rest : Text)
    → (starts b'-' (print_int (suc k) z ++ rest) || starts_digit (print_int (suc k) z ++ rest))
      ≡ true
unfolding print_int
int_begins k (pos n) rest =
    rw (number-starts_digit k n rest) (or-true (starts b'-' (print_digits (suc k) n ++ rest)))
int_begins k (negsuc n) rest = refl

pub ts_in_delta-print :
    (e : MarketDataEvent) (k : ℕ) (z : ℤ) (rest : Text)
    → IsInt32 z
    → pos_part z + neg_part z < 10 ^ suc k
    → IsTail rest
    → ts_in_delta_field (codes "ts_in_delta") e (print_int (suc k) z ++ rest)
      ≡ Parsed.ok (record e { ts_in_delta = z }) rest
unfolding ts_in_delta_field
ts_in_delta-print e k z rest h small tail =
    rw (int_begins k z rest, parse_i32-print (suc k) z rest h small tail.no_digit tail.no_minus)
      refl

pub int-IsValue : (k : ℕ) (z : ℤ) (rest : Text) → IsValue (print_int (suc k) z ++ rest)
unfolding print_int
int-IsValue k (pos n) rest = number-IsValue (record { more = k; value = n }) rest
int-IsValue k (negsuc n) rest = refl
