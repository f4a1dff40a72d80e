-- ===== src/JsonNative/Print/Lists.antt =====
-- The loops of src/ingestion/JsonNativeDataParser.cpp over a printed list of fields: given what one
-- field does, they read every field and stop before the closing brace.
use back_tester.Prelude.{
  ℕ, zero, suc, ◌+◌, ◌≤◌, ◌<◌, ◌≡◌, refl, ap, ◌∙◌, List, [], ◌∷◌, ◌++◌, append_assoc, All, length,
  length-append, true, arith,
}
use back_tester.Event.{MarketDataEvent}
use back_tester.JsonNative.Scan.{Text, skip_while}
use back_tester.JsonNative.Fields.{Parsed, and_then, next_item, next_round, is_separator}
use back_tester.JsonNative.Line.{object_loop}
use back_tester.JsonNative.Print.{print_more, print_fields, set_all}
use back_tester.JsonNative.Print.Steps.{IsTail, IsValue, quote_free, next_round-key}

module _ (field : Text → MarketDataEvent → Text → Parsed) where
  -- A round at a key whose value is read.
  pub object_loop-key :
      (fuel : ℕ) (e e' : MarketDataEvent) (name v rest : Text)
      → quote_free name ≡ true
      → IsValue v
      → field name e v ≡ Parsed.ok e' rest
      → object_loop field (suc fuel) e (b'"' ∷ name ++ b'"' ∷ b':' ∷ v)
        ≡ object_loop field fuel e' rest
  unfolding object_loop
  object_loop-key fuel e e' name v rest h hv read =
      rw (next_round-key name v h hv) (ap (and_then (object_loop field fuel)) read)

  object_loop-comma :
      (fuel : ℕ) (e : MarketDataEvent) (p : Text)
      → object_loop field (suc fuel) e (b',' ∷ p) ≡ object_loop field (suc fuel) e p
  unfolding object_loop next_round skip_while is_separator
  object_loop-comma fuel e p = refl

  object_loop-brace :
      (fuel : ℕ) (e : MarketDataEvent) (p : Text)
      → object_loop field (suc fuel) e (b'}' ∷ p) ≡ Parsed.ok e (b'}' ∷ p)
  unfolding object_loop next_round next_item skip_while is_separator
  object_loop-brace fuel e p = refl

  module _ {F : Type 0} (print : F → Text) (set : MarketDataEvent → F → MarketDataEvent)
      (IsField : F → Type 0) (printed : (f : F) → 0 < length (print f))
      (step : (fuel : ℕ) (e : MarketDataEvent) (f : F) (rest : Text)
        → IsField f
        → IsTail rest
        → object_loop field (suc fuel) e (print f ++ rest)
          ≡ object_loop field fuel (set e f) rest) where
    print_more-IsTail : (fs : List F) (p : Text) → IsTail (print_more print fs (b'}' ∷ p))
    unfolding print_more
    print_more-IsTail [] p = record { no_digit = refl; no_minus = refl }
    print_more-IsTail (f ∷ fs) p = record { no_digit = refl; no_minus = refl }

    object_loop-more :
        (fs : List F) (fuel : ℕ) (e : MarketDataEvent) (p : Text)
        → length fs < fuel
        → All IsField fs
        → object_loop field fuel e (print_more print fs (b'}' ∷ p))
          ≡ Parsed.ok (set_all set e fs) (b'}' ∷ p)
    unfolding print_more
    object_loop-more fs zero e p small h = absurd (omega (arith, small))
    object_loop-more [] (suc fuel) e p small h = object_loop-brace fuel e p
    object_loop-more (f ∷ fs) (suc fuel) e p small h =
        object_loop-comma fuel e (print f ++ print_more print fs (b'}' ∷ p))
        ∙ step fuel e f (print_more print fs (b'}' ∷ p)) h.0 (print_more-IsTail fs p)
        ∙ object_loop-more fs fuel (set e f) p (omega (arith, small)) h.1

    pub object_loop-fields :
        (fs : List F) (fuel : ℕ) (e : MarketDataEvent) (p : Text)
        → length fs < fuel
        → All IsField fs
        → object_loop field fuel e (print_fields print fs (b'}' ∷ p))
          ≡ Parsed.ok (set_all set e fs) (b'}' ∷ p)
    unfolding print_fields
    object_loop-fields fs zero e p small h = absurd (omega (arith, small))
    object_loop-fields [] (suc fuel) e p small h = object_loop-brace fuel e p
    object_loop-fields (f ∷ fs) (suc fuel) e p small h =
        step fuel e f (print_more print fs (b'}' ∷ p)) h.0 (print_more-IsTail fs p)
        ∙ object_loop-more fs fuel (set e f) p (omega (arith, small)) h.1

    length-print_more :
        (fs : List F) (rest : Text) → length fs + length rest ≤ length (print_more print fs rest)
    unfolding print_more
    length-print_more [] rest = omega arith
    length-print_more (f ∷ fs) rest =
        omega (arith, length-append (print f) (print_more print fs rest), length-print_more fs rest)

    -- The loop's fuel is enough for every field.
    pub length-print_fields :
        (fs : List F) (rest : Text) → length fs + length rest ≤ length (print_fields print fs rest)
    unfolding print_fields
    length-print_fields [] rest = omega arith
    length-print_fields (f ∷ fs) rest = omega (
      arith,
      length-append (print f) (print_more print fs rest),
      length-print_more fs rest,
      printed f,
    )

pub print_more-append :
    {F : Type 0} (print : F → Text) (fs : List F) (p rest : Text)
    → print_more print fs p ++ rest ≡ print_more print fs (p ++ rest)
unfolding print_more
print_more-append print [] p rest = refl
print_more-append print (f ∷ fs) p rest =
    append_assoc (b',' ∷ print f) (print_more print fs p) rest
    ∙ ap (λ t. b',' ∷ print f ++ t) (print_more-append print fs p rest)

pub print_fields-append :
    {F : Type 0} (print : F → Text) (fs : List F) (p rest : Text)
    → print_fields print fs p ++ rest ≡ print_fields print fs (p ++ rest)
unfolding print_fields
print_fields-append print [] p rest = refl
print_fields-append print (f ∷ fs) p rest =
    append_assoc (print f) (print_more print fs p) rest
    ∙ ap (λ t. print f ++ t) (print_more-append print fs p rest)
