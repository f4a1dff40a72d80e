-- ===== src/JsonNative/Scan.antt =====
-- The scanning loops of src/ingestion/JsonNativeDataParser.cpp, and `ndp_skipVal`.
use back_tester.Prelude.{
  ℕ, zero, suc, ◌≤◌, Bool, true, false, not, ◌||◌, ◌&&◌, ◌==◌, leb, List, [], ◌∷◌, ◌++◌, length,
  All, ◌≡◌, refl, ap, arith, if◌then◌else◌,
}

-- Bytes.
abbrev pub Text : Type 0
Text = List ℕ

-- `while (p < end && test(*p)) ++p;` and what it has passed over.
unfoldable pub skip_while : (ℕ → Bool) → Text → Text
skip_while test [] = []
skip_while test (c ∷ p) = if test c then skip_while test p else c ∷ p

unfoldable pub take_while : (ℕ → Bool) → Text → Text
take_while test [] = []
take_while test (c ∷ p) = if test c then c ∷ take_while test p else []

abbrev pub is_space : ℕ → Bool
is_space c = c == b' '

abbrev pub not_quote : ℕ → Bool
not_quote c = not (c == b'"')

-- `if (p < end) ++p;`
abbrev pub advance : Text → Text
advance [] = []
advance (c ∷ p) = p

-- To the next quote and past it.
unfoldable pub past_quote : Text → Text
past_quote p = advance (skip_while not_quote p)

-- `p < end && *p == c`
abbrev pub starts : ℕ → Text → Bool
starts c [] = false
starts c (d ∷ p) = d == c

abbrev pub is_digit : ℕ → Bool
is_digit c = leb b'0' c && leb c b'9'

abbrev pub starts_digit : Text → Bool
starts_digit [] = false
starts_digit (c ∷ p) = is_digit c

abbrev pub is_opener : ℕ → Bool
is_opener c = c == b'{' || c == b'['

abbrev pub is_closer : ℕ → Bool
is_closer c = c == b'}' || c == b']'

-- The loop over nested brackets, at depth 1 + `above`; `quoted` while it looks for a quote.
unfoldable pub skip_nested : Bool → ℕ → Text → Text
skip_nested quoted above [] = []
skip_nested true above (c ∷ p) = skip_nested (not_quote c) above p
skip_nested false zero (c ∷ p) =
    let deeper = skip_nested false 1 p in
    let rest = skip_nested (c == b'"') zero p in
    if is_opener c then deeper else (if is_closer c then p else rest)
skip_nested false (suc above) (c ∷ p) =
    let deeper = skip_nested false (suc (suc above)) p in
    let shallower = skip_nested false above p in
    let rest = skip_nested (c == b'"') (suc above) p in
    if is_opener c then deeper else (if is_closer c then shallower else rest)

abbrev pub not_value_end : ℕ → Bool
not_value_end c = not (c == b',' || is_closer c)

-- What stands after the spaces. The bracket that opens a nested value takes its depth from 0 to 1.
skip_bare : Text → Text
unfolding past_quote skip_while skip_nested
skip_bare [] = []
skip_bare (c ∷ p) =
    if c == b'"'
    then past_quote p
    else (if is_opener c then skip_nested false 0 p else skip_while not_value_end (c ∷ p))

-- `ndp_skipVal`
unfoldable pub skip_val : Text → Text
unfolding skip_while skip_bare
skip_val p = skip_bare (skip_while is_space p)

-- Each scan stops in what is left of its text.
pub length-skip_while : (test : ℕ → Bool) (p : Text) → length (skip_while test p) ≤ length p
unfolding skip_while
length-skip_while test [] = omega arith
length-skip_while test (c ∷ p) = ground (arith, length-skip_while test p)

pub length-advance : (p : Text) → length (advance p) ≤ length p
length-advance [] = omega arith
length-advance (c ∷ p) = omega arith

pub length-past_quote : (p : Text) → length (past_quote p) ≤ length p
unfolding past_quote
length-past_quote p =
    omega (arith, length-skip_while not_quote p, length-advance (skip_while not_quote p))

length-skip_nested :
    (quoted : Bool) (above : ℕ) (p : Text) → length (skip_nested quoted above p) ≤ length p
unfolding skip_nested
length-skip_nested true above [] = omega arith
length-skip_nested false above [] = omega arith
length-skip_nested true above (c ∷ p) = omega (arith, length-skip_nested (not_quote c) above p)
length-skip_nested false zero (c ∷ p) =
    ground (arith, length-skip_nested false 1 p, length-skip_nested (c == b'"') zero p)
length-skip_nested false (suc above) (c ∷ p) = ground (
  arith,
  length-skip_nested false (suc (suc above)) p,
  length-skip_nested false above p,
  length-skip_nested (c == b'"') (suc above) p,
)

length-skip_bare : (p : Text) → length (skip_bare p) ≤ length p
unfolding skip_bare
length-skip_bare [] = omega arith
length-skip_bare (c ∷ p) = ground (
  arith,
  length-past_quote p,
  length-skip_nested false 0 p,
  length-skip_while not_value_end (c ∷ p),
)

pub length-skip_val : (p : Text) → length (skip_val p) ≤ length p
unfolding skip_val
length-skip_val p =
    omega (arith, length-skip_while is_space p, length-skip_bare (skip_while is_space p))

-- A run of characters that pass the test, before one that does not.
pub skip_while-run :
    (test : ℕ → Bool) (run : Text) (c : ℕ) (p : Text)
    → All (λ x. test x ≡ true) run
    → test c ≡ false
    → skip_while test (run ++ c ∷ p) ≡ c ∷ p
unfolding skip_while
skip_while-run test [] c p h stop = rw stop refl
skip_while-run test (x ∷ run) c p h stop = rw h.0 (skip_while-run test run c p h.1 stop)

pub take_while-run :
    (test : ℕ → Bool) (run : Text) (c : ℕ) (p : Text)
    → All (λ x. test x ≡ true) run
    → test c ≡ false
    → take_while test (run ++ c ∷ p) ≡ run
unfolding take_while
take_while-run test [] c p h stop = rw stop refl
take_while-run test (x ∷ run) c p h stop =
    rw h.0 (ap (λ r. x ∷ r) (take_while-run test run c p h.1 stop))

pub past_quote-run :
    (run p : Text) → All (λ x. not_quote x ≡ true) run → past_quote (run ++ b'"' ∷ p) ≡ p
unfolding past_quote
past_quote-run run p h = rw (skip_while-run not_quote run b'"' p h refl) refl
