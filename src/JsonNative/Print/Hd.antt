-- ===== src/JsonNative/Print/Hd.antt =====
-- `ndp_parseHd` of src/ingestion/JsonNativeDataParser.cpp reads every printed object hd.
use back_tester.Prelude.{ℕ, suc, ◌^◌, ◌<◌, ◌≡◌, refl, ap, ◌∙◌, List, ◌∷◌, ◌++◌, All, length, arith}
use back_tester.Event.{MarketDataEvent, RType}
use back_tester.JsonNative.Scan.{Text}
use back_tester.JsonNative.Timestamp.RoundTrip.{print_moment}
use back_tester.JsonNative.Fields.{rtype_of, Parsed}
use back_tester.JsonNative.Line.{hd_field, object_loop, parse_hd, past_brace}
use back_tester.JsonNative.Print.{
  HdField, IsHdField, print_hd_field, set_hd_field, print_fields, set_all, codes, print_number,
  in_quotes, Number, IsBelow, rtype_code, IsNamedRType,
}
use back_tester.JsonNative.Print.Steps.{IsTail, number_field-print, number-IsValue, stamp-print}
use back_tester.JsonNative.Print.Lists.{object_loop-key, object_loop-fields, length-print_fields}

pub rtype_of-code : (r : RType) → IsNamedRType r → rtype_of (rtype_code r) ≡ r
unfolding rtype_of rtype_code
rtype_of-code (RType.other c) h = absurd h
rtype_of-code r h = refl

rtype_code-small :
    (r : RType) → IsNamedRType r → IsBelow (2 ^ 8) (record { more = 2; value = rtype_code r })
unfolding rtype_code
rtype_code-small (RType.other c) h = absurd h
rtype_code-small r h = omega arith

hd_step :
    (fuel : ℕ) (e : MarketDataEvent) (f : HdField) (rest : Text)
    → IsHdField f
    → IsTail rest
    → object_loop hd_field (suc fuel) e (print_hd_field f ++ rest)
      ≡ object_loop hd_field fuel (set_hd_field e f) rest
unfolding hd_field print_hd_field set_hd_field
hd_step fuel e (HdField.rtype r) rest h tail =
    let n : Number = record { more = 2; value = rtype_code r } in
    object_loop-key hd_field fuel e _ (codes "rtype") (print_number n ++ rest) rest refl
      (number-IsValue n rest)
      (number_field-print _ e n rest (rtype_code-small r h) (omega arith) tail
        ∙ ap (λ t. Parsed.ok (record e { rtype = t }) rest) (rtype_of-code r h))
hd_step fuel e (HdField.publisher_id n) rest h tail =
    object_loop-key hd_field fuel e _ (codes "publisher_id") (print_number n ++ rest) rest refl
      (number-IsValue n rest)
      (number_field-print _ e n rest h (omega arith) tail
        ∙ ap (λ (v : ℕ). Parsed.ok (record e { publisher_id = v }) rest) (omega (arith, h.1)))
hd_step fuel e (HdField.instrument_id n) rest h tail =
    object_loop-key hd_field fuel e _ (codes "instrument_id") (print_number n ++ rest) rest refl
      (number-IsValue n rest) (number_field-print _ e n rest h (omega arith) tail)
hd_step fuel e (HdField.ts_event t) rest h tail =
    object_loop-key hd_field fuel e _ (codes "ts_event") (in_quotes (print_moment t) ++ rest) rest
      refl refl (stamp-print _ e t rest h)

print_hd_field-length : (f : HdField) → 0 < length (print_hd_field f)
unfolding print_hd_field
print_hd_field-length (HdField.rtype n) = omega arith
print_hd_field-length (HdField.publisher_id n) = omega arith
print_hd_field-length (HdField.instrument_id n) = omega arith
print_hd_field-length (HdField.ts_event t) = omega arith

-- A printed object hd sets its fields, and the pointer stands after its closing brace.
pub parse_hd-print :
    (e : MarketDataEvent) (fs : List HdField) (rest : Text)
    → All IsHdField fs
    → parse_hd e (b'{' ∷ print_fields print_hd_field fs (b'}' ∷ rest))
      ≡ Parsed.ok (set_all set_hd_field e fs) rest
unfolding parse_hd past_brace
parse_hd-print e fs rest h =
    rw
      (object_loop-fields hd_field print_hd_field set_hd_field (λ f. IsHdField f)
        print_hd_field-length hd_step fs
        (suc (length (print_fields print_hd_field fs (b'}' ∷ rest)))) e rest
        (omega (
          arith,
          length-print_fields hd_field print_hd_field set_hd_field (λ f. IsHdField f)
              print_hd_field-length hd_step fs (b'}' ∷ rest),
        ))
        h)
      refl
