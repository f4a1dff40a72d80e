-- ===== src/JsonNative/Print/Steps.antt =====
-- The rounds of the loops of src/ingestion/JsonNativeDataParser.cpp at a printed field.
use back_tester.Prelude.{
  ℕ, zero, suc, ◌+◌, ◌/◌, ◌%◌, ◌^◌, ◌≤◌, ◌≡◌, refl, ap, ◌∙◌, Bool, true, false, [], ◌∷◌, ◌++◌,
  append_assoc, All, All-append, pos, some, ℤ, arith, if◌then◌else◌,
}
use back_tester.Event.{MarketDataEvent}
use back_tester.JsonNative.Scan.{
  Text, starts, starts_digit, not_quote, skip_while, take_while-run, past_quote-run,
}
use back_tester.JsonNative.Numbers.RoundTrip.{print_digits, parse_u32-print}
use back_tester.JsonNative.Numbers.Prices.{print_digits-All}
use back_tester.JsonNative.Timestamp.{parse_iso8601_nanos}
use back_tester.JsonNative.Timestamp.RoundTrip.{
  Moment, IsMoment, print_moment, instant, parse_iso8601_nanos-print,
}
use back_tester.JsonNative.Fields.{
  Parsed, Round, next_item, next_round, is_colon, is_separator, number_field, quoted_field, stamp,
}
use back_tester.JsonNative.Print.{in_quotes, Number, print_number, IsBelow}

-- What follows a printed value: neither a digit nor a minus sign.
pub record IsTail (rest : Text) : Type 0 where
  pub no_digit : starts_digit rest ≡ false
  pub no_minus : starts b'-' rest ≡ false

-- A value that a key's colon may stand before.
abbrev pub IsValue : Text → Type 0
IsValue [] = Unit
IsValue (c ∷ p) = is_colon c ≡ false

skip_colon : (v : Text) → IsValue v → skip_while is_colon v ≡ v
unfolding skip_while
skip_colon [] h = refl
skip_colon (c ∷ v) h = rw h refl

-- A name with no quote in it.
abbrev pub quote_free : Text → Bool
quote_free [] = true
quote_free (c ∷ name) = if not_quote c then quote_free name else false

quote_free-All : (name : Text) → quote_free name ≡ true → All (λ c. not_quote c ≡ true) name
quote_free-All [] h = tt
quote_free-All (c ∷ name) h = ground (arith, quote_free-All name)

pub next_round-key :
    (name v : Text)
    → quote_free name ≡ true
    → IsValue v
    → next_round (b'"' ∷ name ++ b'"' ∷ b':' ∷ v) ≡ Round.key name v
unfolding next_round next_item skip_while is_separator
next_round-key name v h hv =
    let free = quote_free-All name h in
    rw
      (take_while-run not_quote name b'"' (b':' ∷ v) free refl, past_quote-run name (b':' ∷ v) free)
      (ap (Round.key name) (skip_colon v hv))

-- The digits of a number begin with one.
pub number-starts_digit :
    (k n : ℕ) (rest : Text) → starts_digit (print_digits (suc k) n ++ rest) ≡ true
unfolding print_digits
number-starts_digit zero n rest = ground arith
number-starts_digit (suc k) n rest = rw append_assoc (number-starts_digit k (n / 10) _)

digit_IsValue : (p : Text) → starts_digit p ≡ true → IsValue p
digit_IsValue [] h = tt
digit_IsValue (c ∷ p) h = ground arith

pub number-IsValue : (n : Number) (rest : Text) → IsValue (print_number n ++ rest)
number-IsValue n rest = digit_IsValue _ (number-starts_digit n.more n.value rest)

pub number_field-print :
    (store : ℕ → MarketDataEvent) (e : MarketDataEvent) (n : Number) {bound : ℕ} (rest : Text)
    → IsBelow bound n
    → bound ≤ 2 ^ 32
    → IsTail rest
    → number_field store e (print_number n ++ rest) ≡ Parsed.ok (store n.value) rest
unfolding number_field
number_field-print store e n rest h small tail =
    rw
      (
        number-starts_digit n.more n.value rest,
        parse_u32-print (suc n.more) n.value rest h.0 tail.no_digit,
      )
      (ap (λ (v : ℕ). Parsed.ok (store v) rest) (omega (arith, h.1)))

pub quoted_field-print :
    (read : Text → Parsed) (e : MarketDataEvent) (text rest : Text)
    → quoted_field read e (in_quotes text ++ rest) ≡ read (text ++ b'"' ∷ rest)
unfolding quoted_field
quoted_field-print read e text rest = ap read (append_assoc text (b'"' ∷ []) rest)

pub digit_no_quote : (d : ℕ) → not_quote (b'0' + d % 10) ≡ true
digit_no_quote d = ground arith

pub no_quote_after :
    (k n : ℕ) (rest : Text)
    → All (λ c. not_quote c ≡ true) rest
    → All (λ c. not_quote c ≡ true) (print_digits k n ++ rest)
no_quote_after k n rest h =
    All-append _ (print_digits k n) rest (print_digits-All _ k n digit_no_quote) h

print_moment-All : (t : Moment) → All (λ c. not_quote c ≡ true) (print_moment t)
unfolding print_moment
print_moment-All t = no_quote_after 4 (1970 + t.year) _ (
  refl,
  no_quote_after 2 (suc t.month) _ (
    refl,
    no_quote_after 2 t.day _ (
      refl,
      no_quote_after 2 t.hour _ (
        refl,
        no_quote_after 2 t.minute _
            (refl, no_quote_after 2 t.second _ (refl, no_quote_after 9 t.nanos _ (refl, tt))),
      ),
    ),
  ),
)

stamp-run :
    (store : ℤ → MarketDataEvent) (e : MarketDataEvent) (text rest : Text) (z : ℤ)
    → All (λ c. not_quote c ≡ true) text
    → parse_iso8601_nanos text ≡ some z
    → stamp store e (text ++ b'"' ∷ rest) ≡ Parsed.ok (store z) rest
unfolding stamp
stamp-run store e [] rest z h parsed = unfold parse_iso8601_nanos in cc parsed
stamp-run store e (c ∷ text) rest z h parsed =
    rw
      (
        take_while-run not_quote (c ∷ text) b'"' rest h refl,
        parsed,
        past_quote-run (c ∷ text) rest h,
      )
      refl

pub stamp-print :
    (store : ℤ → MarketDataEvent) (e : MarketDataEvent) (t : Moment) (rest : Text)
    → IsMoment t
    → quoted_field (stamp store e) e (in_quotes (print_moment t) ++ rest)
      ≡ Parsed.ok (store (pos (instant t))) rest
stamp-print store e t rest h =
    quoted_field-print (stamp store e) e (print_moment t) rest
    ∙ stamp-run store e (print_moment t) rest (pos (instant t)) (print_moment-All t)
        (parse_iso8601_nanos-print t h)
