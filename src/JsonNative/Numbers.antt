-- ===== src/JsonNative/Numbers.antt =====
-- The number parsers of src/ingestion/JsonNativeDataParser.cpp: `parse_u32`, `parse_u64`, `parse_i32`,
-- `parse_nanos_fixed9`, and the price of `ndp_parseLine`. A `char` is signed, so that a byte from 128
-- counts as negative in `*p - '0'`. Where an `int64_t` overflows, which C++ leaves undefined, the result
-- wraps; since sums and products keep their remainder modulo 2 ^ 64, `int64` wraps once at the end.
pub mod RoundTrip
pub mod Bounds
pub mod Prices
use back_tester.Prelude.{
  ℕ, zero, suc, ◌+◌, ◌-◌, ◌*◌, ◌^◌, ◌%◌, ◌<◌, ◌≡◌, ltb, Bool, true, false, not, ◌==◌, List, [], ◌∷◌,
  ℤ, pos, negsuc, sub_ℕ, ◌+ℤ◌, get_or, if◌then◌else◌, arith,
}
use back_tester.Event.{to_u64}
use back_tester.JsonNative.Scan.{Text, is_digit, advance, starts, skip_while, take_while}

-- The loop of `parse_u32` and `parse_u64`, modulo `m`.
unfoldable pub parse_digits : ℕ → ℕ → Text → ℕ × Text
parse_digits m v [] = (v, [])
parse_digits m v (c ∷ p) =
    let rest = parse_digits m ((v * 10 + (c - b'0')) % m) p in
    if is_digit c then rest else (v, c ∷ p)

unfoldable pub parse_u32 : Text → ℕ × Text
unfolding parse_digits
parse_u32 p = parse_digits (2 ^ 32) 0 p

unfoldable pub parse_u64 : Text → ℕ × Text
unfolding parse_digits
parse_u64 p = parse_digits (2 ^ 64) 0 p

-- `static_cast<int32_t>(v)`
unfoldable pub signed32 : ℕ → ℤ
signed32 v = if ltb v (2 ^ 31) then pos v else sub_ℕ v (2 ^ 32)

-- The negation of an `int32_t` whose bits are `v`. That of the least `int32_t`, which C++ leaves
-- undefined, wraps to itself.
unfoldable pub negated32 : ℕ → ℤ
unfolding signed32
negated32 v = signed32 ((2 ^ 32 - v) % 2 ^ 32)

unfoldable pub parse_i32 : Text → ℤ × Text
unfolding parse_u32 signed32 negated32
parse_i32 p =
    if starts b'-' p
    then (let (v, rest) = parse_u32 (advance p) in (negated32 v, rest))
    else (let (v, rest) = parse_u32 p in (signed32 v, rest))

-- `c - '0'`
unfoldable pub digit : ℕ → ℤ
digit c = if ltb c 128 then sub_ℕ c b'0' else sub_ℕ c (256 + b'0')

-- A multiple, and the negation.
unfoldable pub scale : ℕ → ℤ → ℤ
scale k (pos n) = pos (k * n)
scale k (negsuc n) = sub_ℕ 0 (k * suc n)

unfoldable pub negate : ℤ → ℤ
negate (pos n) = sub_ℕ 0 n
negate (negsuc n) = pos (suc n)

-- An `int64_t` as it is left by arithmetic whose exact result is given.
unfoldable pub int64 : ℤ → ℤ
int64 z = let v = to_u64 z in if ltb v (2 ^ 63) then pos v else sub_ℕ v (2 ^ 64)

pub int64-pos : (n : ℕ) → n < 2 ^ 63 → int64 (pos n) ≡ pos n
unfolding int64
int64-pos n h = ground arith

pub int64-negsuc : (n : ℕ) → n < 2 ^ 63 → int64 (negsuc n) ≡ negsuc n
unfolding int64
int64-negsuc n h = ground arith

-- `c - '0'` at an index of a text that is long enough.
unfoldable pub digit_at : Text → ℕ → ℤ
digit_at p i = digit (get_or p i 0)

unfoldable pub parse_nanos_fixed9 : Text → ℤ
unfolding digit_at
parse_nanos_fixed9 p =
    scale 100000000 (digit_at p 0)
    +ℤ scale 10000000 (digit_at p 1)
    +ℤ scale 1000000 (digit_at p 2)
    +ℤ scale 100000 (digit_at p 3)
    +ℤ scale 10000 (digit_at p 4)
    +ℤ scale 1000 (digit_at p 5)
    +ℤ scale 100 (digit_at p 6)
    +ℤ scale 10 (digit_at p 7)
    +ℤ digit_at p 8

-- `int_part`, over whatever stands before the point.
unfoldable pub whole_part : ℤ → Text → ℤ
whole_part acc [] = acc
whole_part acc (c ∷ p) = whole_part (scale 10 acc +ℤ digit c) p

-- `frac_part`, over at most `left` characters, then filled up with zeros.
unfoldable pub fraction : ℕ → ℤ → Text → ℤ
fraction zero acc p = acc
fraction (suc left) acc [] = fraction left (scale 10 acc) []
fraction (suc left) acc (c ∷ p) = fraction left (scale 10 acc +ℤ digit c) p

unfoldable pub not_point : ℕ → Bool
not_point c = not (c == b'.')

unfoldable pub fraction_after : Text → ℤ
unfolding fraction
fraction_after [] = pos 0
fraction_after (c ∷ p) = fraction 9 (pos 0) p

unfoldable pub unsigned_price : Text → ℤ
unfolding whole_part fraction_after take_while skip_while not_point
unsigned_price p =
    scale 1000000000 (whole_part (pos 0) (take_while not_point p))
    +ℤ fraction_after (skip_while not_point p)

-- The price that stands between two quotes, in units of 10⁻⁹.
unfoldable pub price_value : Text → ℤ
unfolding unsigned_price int64
price_value p =
    int64 (if starts b'-' p then negate (unsigned_price (advance p)) else unsigned_price p)
