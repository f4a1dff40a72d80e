-- ===== src/JsonNative/Numbers/Prices.antt =====
-- Printed prices, and what the price parser of src/ingestion/JsonNativeDataParser.cpp makes of them.
use native.Mathlib.Nat.{pow-suc}
use back_tester.Prelude.{
  ℕ, zero, suc, ◌+◌, ◌/◌, ◌%◌, ◌^◌, ◌<◌, ◌≡◌, refl, ap, ◌∙◌, true, false, [], ◌∷◌, ◌++◌, All,
  All-append, ℤ, pos, negsuc, ◌+ℤ◌, pos-add, pos_part, neg_part, arith,
}
use back_tester.JsonNative.Scan.{Text, skip_while-run, take_while-run}
use back_tester.JsonNative.Numbers.{
  digit, scale, whole_part, fraction, fraction_after, not_point, unsigned_price, negate,
  price_value, int64, int64-pos, int64-negsuc,
}
use back_tester.JsonNative.Numbers.RoundTrip.{print_digits, digit-print, scale-pos, no_minus}

-- A price of `u` units in `k` digits, a point and nine digits; and a signed one.
abbrev pub print_unsigned : ℕ → ℕ → Text
print_unsigned k u = print_digits k (u / 10 ^ 9) ++ b'.' ∷ print_digits 9 (u % 10 ^ 9)

unfoldable pub print_price : ℕ → ℤ → Text
print_price k (pos n) = print_unsigned k n
print_price k (negsuc n) = b'-' ∷ print_unsigned k (suc n)

whole_part-append :
    (acc : ℤ) (xs ys : Text) → whole_part acc (xs ++ ys) ≡ whole_part (whole_part acc xs) ys
unfolding whole_part
whole_part-append acc [] ys = refl
whole_part-append acc (c ∷ xs) ys = whole_part-append (scale 10 acc +ℤ digit c) xs ys

whole_part-print : (k n : ℕ) → n < 10 ^ k → whole_part (pos 0) (print_digits k n) ≡ pos n
unfolding print_digits whole_part
whole_part-print zero n h = ap pos (omega (arith, h))
whole_part-print (suc k) n h =
    rw
      (
        whole_part-append (pos 0) (print_digits k (n / 10)) ((b'0' + n % 10) ∷ []),
        whole_part-print k (n / 10) (omega (arith, rw pow-suc at h)),
        digit-print,
        scale-pos,
        pos-add,
      )
      (ap pos (omega arith))

fraction-print : (n : ℕ) → n < 10 ^ 9 → fraction 9 (pos 0) (print_digits 9 n) ≡ pos n
unfolding fraction print_digits
fraction-print n h = simp (digit-print, scale-pos, pos-add) (ap pos (omega arith))

pub print_digits-All {ℓ} :
    (P : ℕ → Type ℓ) (k n : ℕ) → ((d : ℕ) → P (b'0' + d % 10)) → All P (print_digits k n)
unfolding print_digits
print_digits-All P zero n h = tt
print_digits-All P (suc k) n h =
    All-append P (print_digits k (n / 10)) _ (print_digits-All P k (n / 10) h) (h n, tt)

digit_no_point : (d : ℕ) → not_point (b'0' + d % 10) ≡ true
unfolding not_point
digit_no_point d = ground arith

point : not_point b'.' ≡ false
unfolding not_point
point = refl

unsigned_price-print : (k u : ℕ) → u / 10 ^ 9 < 10 ^ k → unsigned_price (print_unsigned k u) ≡ pos u
unfolding unsigned_price fraction_after
unsigned_price-print k u h =
    let run = print_digits-All (λ x. not_point x ≡ true) k (u / 10 ^ 9) digit_no_point in
    rw
      (
        skip_while-run not_point _ b'.' _ run point,
        take_while-run not_point _ b'.' _ run point,
        whole_part-print k (u / 10 ^ 9) h,
        scale-pos,
        fraction-print (u % 10 ^ 9) (omega arith),
        pos-add,
      )
      (ap pos (omega arith))

-- Every price above the least `int64_t` is read back from its sign, its whole part in any sufficient
-- number of digits, the point and nine digits.
pub price_value-print :
    (k : ℕ) (z : ℤ)
    → ((pos_part z + neg_part z) / 10 ^ 9 < 10 ^ k) × (pos_part z + neg_part z < 2 ^ 63)
    → price_value (print_price k z) ≡ z
unfolding price_value print_price negate
price_value-print k (pos n) h =
    rw (no_minus k (n / 10 ^ 9) (b'.' ∷ print_digits 9 (n % 10 ^ 9)) refl)
      (rw (unsigned_price-print k n (omega (arith, h.0))) (int64-pos n (omega (arith, h.1))))
price_value-print k (negsuc n) h = rw (unsigned_price-print k (suc n) (omega (arith, h.0))) (
    let minus : negate (pos (suc n)) ≡ negsuc n = ground arith in
    ap int64 minus ∙ int64-negsuc n (omega (arith, h.1)))
