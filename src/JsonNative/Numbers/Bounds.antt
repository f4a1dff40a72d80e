-- ===== src/JsonNative/Numbers/Bounds.antt =====
-- The ranges of what the number parsers of src/ingestion/JsonNativeDataParser.cpp return, and that
-- they move forward.
use back_tester.Prelude.{
  ℕ, ◌+◌, ◌-◌, ◌*◌, ◌%◌, ◌^◌, ◌≤◌, ◌<◌, [], ◌∷◌, length, arith, Bool-cases, inl, inr,
}
use back_tester.JsonNative.Scan.{Text, starts, advance, length-advance}
use back_tester.JsonNative.Numbers.{
  parse_digits, parse_u32, parse_u64, parse_i32, signed32, negated32,
}
use back_tester.JsonNative.Numbers.RoundTrip.{IsInt32}

parse_digits-lt : (m v : ℕ) (p : Text) → v < m → (parse_digits m v p).0 < m
unfolding parse_digits
parse_digits-lt m v [] h = h
parse_digits-lt m v (c ∷ p) h =
    let in_range : (v * 10 + (c - b'0')) % m < m = grind arith in
    ground (arith, parse_digits-lt m ((v * 10 + (c - b'0')) % m) p in_range)

parse_digits-length : (m v : ℕ) (p : Text) → length (parse_digits m v p).1 ≤ length p
unfolding parse_digits
parse_digits-length m v [] = omega arith
parse_digits-length m v (c ∷ p) =
    ground (arith, parse_digits-length m ((v * 10 + (c - b'0')) % m) p)

pub parse_u32-length : (p : Text) → length (parse_u32 p).1 ≤ length p
unfolding parse_u32
parse_u32-length p = parse_digits-length (2 ^ 32) 0 p

pub parse_u64-length : (p : Text) → length (parse_u64 p).1 ≤ length p
unfolding parse_u64
parse_u64-length p = parse_digits-length (2 ^ 64) 0 p

pub parse_i32-length : (p : Text) → length (parse_i32 p).1 ≤ length p
unfolding parse_i32
parse_i32-length p =
    ground (arith, parse_u32-length p, parse_u32-length (advance p), length-advance p)

pub parse_u32-lt : (p : Text) → (parse_u32 p).0 < 2 ^ 32
unfolding parse_u32
parse_u32-lt p = parse_digits-lt (2 ^ 32) 0 p (omega arith)

pub parse_u64-lt : (p : Text) → (parse_u64 p).0 < 2 ^ 64
unfolding parse_u64
parse_u64-lt p = parse_digits-lt (2 ^ 64) 0 p (omega arith)

signed32-IsInt32 : (v : ℕ) → v < 2 ^ 32 → IsInt32 (signed32 v)
unfolding signed32
signed32-IsInt32 v h = ground arith

pub parse_i32-range : (p : Text) → IsInt32 (parse_i32 p).0
unfolding parse_i32 negated32
parse_i32-range p = elim (Bool-cases (starts b'-' p)) [
  | inl minus ↦
      rw minus (signed32-IsInt32 ((2 ^ 32 - (parse_u32 (advance p)).0) % 2 ^ 32) (omega arith))
  | inr plain ↦ rw plain (signed32-IsInt32 _ (parse_u32-lt p))
]

-- Whatever the text, the numbers that are read fit the types of the fields.
parse_fields_range :
    (p : Text) → ((parse_u32 p).0 < 2 ^ 32) × ((parse_u64 p).0 < 2 ^ 64) × IsInt32 (parse_i32 p).0
parse_fields_range p = (parse_u32-lt p, parse_u64-lt p, parse_i32-range p)
