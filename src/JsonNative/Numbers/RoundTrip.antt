-- ===== src/JsonNative/Numbers/RoundTrip.antt =====
-- Printed numbers, and what the number parsers of src/ingestion/JsonNativeDataParser.cpp make of them.
use native.Mathlib.Nat.{add-mul-mod_self_right, div-add-mod', mod-eq_of_lt, pow-suc}
use back_tester.Prelude.{
  ℕ, zero, suc, ◌+◌, ◌-◌, ◌*◌, ◌/◌, ◌%◌, ◌^◌, ◌<◌, ◌≡◌, refl, sym, ap, ◌∙◌, true, false, [], ◌∷◌,
  ◌++◌, append_assoc, ℤ, pos, negsuc, pos-add, pos_part, neg_part, arith,
}
use back_tester.JsonNative.Scan.{Text, starts, starts_digit, is_digit}
use back_tester.JsonNative.Numbers.{
  parse_digits, parse_u32, parse_u64, parse_i32, signed32, negated32, digit, scale,
  parse_nanos_fixed9,
}

-- The last `k` decimal digits of `n`, with leading zeros.
unfoldable pub print_digits : ℕ → ℕ → Text
print_digits zero n = []
print_digits (suc k) n = print_digits k (n / 10) ++ (b'0' + n % 10) ∷ []

times_ten_mod : (a d m : ℕ) → (a % m * 10 + d) % m ≡ (a * 10 + d) % m
times_ten_mod a d m =
    sym (add-mul-mod_self_right (a % m * 10 + d) (a / m * 10) m)
    ∙ ap (λ (x : ℕ). x % m) (grind (arith, div-add-mod' a m))

parse_digits-cons :
    (m v d : ℕ) (rest : Text)
    → d < 10
    → parse_digits m v ((b'0' + d) ∷ rest) ≡ parse_digits m ((v * 10 + d) % m) rest
unfolding parse_digits
parse_digits-cons m v d rest h =
    let tested : is_digit (b'0' + d) ≡ true = ground arith in
    let value : b'0' + d - b'0' ≡ d = omega arith in rw (tested, value) refl

pub parse_digits-print :
    (m v k n : ℕ) (rest : Text)
    → n < 10 ^ k
    → v < m
    → parse_digits m v (print_digits k n ++ rest) ≡ parse_digits m ((v * 10 ^ k + n) % m) rest
unfolding print_digits
parse_digits-print m v zero n rest h hv =
    let kept : v % m ≡ v = mod-eq_of_lt hv in
    let nothing : (v * 1 + n) % m ≡ v = (ap (λ (x : ℕ). x % m) (omega arith)) ∙ kept in
    rw nothing refl
parse_digits-print m v (suc k) n rest h hv = rw append_assoc (
    parse_digits-print m v k (n / 10) ((b'0' + n % 10) ∷ rest) (omega (arith, rw pow-suc at h)) hv
    ∙ parse_digits-cons m _ (n % 10) rest (omega arith)
    ∙ rw times_ten_mod (ap (λ (x : ℕ). parse_digits m (x % m) rest) (rw pow-suc (grind arith))))

parse_digits-stop :
    (m v : ℕ) (rest : Text) → starts_digit rest ≡ false → parse_digits m v rest ≡ (v, rest)
unfolding parse_digits
parse_digits-stop m v [] h = refl
parse_digits-stop m v (c ∷ p) h = rw h refl

parse_digits-read :
    (m k n : ℕ) (rest : Text)
    → n < 10 ^ k
    → 0 < m
    → starts_digit rest ≡ false
    → parse_digits m 0 (print_digits k n ++ rest) ≡ (n % m, rest)
parse_digits-read m k n rest h hm stop =
    parse_digits-print m 0 k n rest h hm
    ∙ ap (λ (x : ℕ). parse_digits m (x % m) rest) (omega arith)
    ∙ parse_digits-stop m (n % m) rest stop

-- A printed number of up to any count of digits is read back modulo 2³² or 2⁶⁴, up to the first
-- character that is no digit.
pub parse_u32-print :
    (k n : ℕ) (rest : Text)
    → n < 10 ^ k
    → starts_digit rest ≡ false
    → parse_u32 (print_digits k n ++ rest) ≡ (n % 2 ^ 32, rest)
unfolding parse_u32
parse_u32-print k n rest h stop = parse_digits-read (2 ^ 32) k n rest h (omega arith) stop

pub parse_u64-print :
    (k n : ℕ) (rest : Text)
    → n < 10 ^ k
    → starts_digit rest ≡ false
    → parse_u64 (print_digits k n ++ rest) ≡ (n % 2 ^ 64, rest)
unfolding parse_u64
parse_u64-print k n rest h stop = parse_digits-read (2 ^ 64) k n rest h (omega arith) stop

-- An integer in `k` digits.
unfoldable pub print_int : ℕ → ℤ → Text
unfolding print_digits
print_int k (pos n) = print_digits k n
print_int k (negsuc n) = b'-' ∷ print_digits k (suc n)

abbrev pub IsInt32 : ℤ → Type 0
IsInt32 (pos n) = n < 2 ^ 31
IsInt32 (negsuc n) = n < 2 ^ 31

signed32-pos : (n : ℕ) → n < 2 ^ 31 → signed32 (n % 2 ^ 32) ≡ pos n
unfolding signed32
signed32-pos n h = ground arith

negated32-suc : (n : ℕ) → n < 2 ^ 31 → negated32 (suc n % 2 ^ 32) ≡ negsuc n
unfolding negated32 signed32
negated32-suc n h = ground arith

pub no_minus :
    (k n : ℕ) (rest : Text)
    → starts b'-' rest ≡ false
    → starts b'-' (print_digits k n ++ rest) ≡ false
unfolding print_digits
no_minus zero n rest h = h
no_minus (suc k) n rest h = rw append_assoc (no_minus k (n / 10) _ (ground arith))

-- Every `int32_t` is read back from its decimal digits, after a minus sign where it is negative.
pub parse_i32-print :
    (k : ℕ) (z : ℤ) (rest : Text)
    → IsInt32 z
    → pos_part z + neg_part z < 10 ^ k
    → starts_digit rest ≡ false
    → starts b'-' rest ≡ false
    → parse_i32 (print_int k z ++ rest) ≡ (z, rest)
unfolding parse_i32 print_int
parse_i32-print k (pos n) rest h small stop unsigned =
    rw
      (
        no_minus k n rest unsigned,
        parse_u32-print k n rest (omega (arith, small)) stop,
        signed32-pos n h,
      )
      refl
parse_i32-print k (negsuc n) rest h small stop unsigned =
    rw (parse_u32-print k (suc n) rest (omega (arith, small)) stop, negated32-suc n h) refl

pub digit-print : (n : ℕ) → digit (b'0' + n % 10) ≡ pos (n % 10)
unfolding digit
digit-print n = ground arith

pub scale-pos : (k n : ℕ) → scale k (pos n) ≡ pos (k * n)
unfolding scale
scale-pos k n = refl

-- Nine digits of nanoseconds are read back.
pub parse_nanos_fixed9-print :
    (n : ℕ) (rest : Text) → n < 10 ^ 9 → parse_nanos_fixed9 (print_digits 9 n ++ rest) ≡ pos n
unfolding parse_nanos_fixed9 print_digits
parse_nanos_fixed9-print n rest h = simp (digit-print, scale-pos, pos-add) (ap pos (omega arith))
