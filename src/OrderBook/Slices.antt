-- ===== src/OrderBook/Slices.antt =====
-- Runs of levels by their indices, as `print_snapshot` of src/order_book/OrderBook.hpp reads them, and
-- what it sums up of a run.
use back_tester.Prelude.{
  ℕ, zero, suc, ◌+◌, ◌-◌, ◌*◌, ◌%◌, ◌^◌, ◌≤◌, ◌<◌, min, ltb, ◌≡◌, refl, sym, ap, ap₂, ◌∙◌,
  Bool-cases, inl, inr, List, [], ◌∷◌, ◌++◌, length, get_or, ℤ, arith,
}
use back_tester.OrderBook.{no_level, total_from}

abbrev pub Level : Type 0
Level = ℤ × ℕ

unfoldable pub drop : ℕ → List Level → List Level
drop zero xs = xs
drop (suc n) [] = []
drop (suc n) (x ∷ xs) = drop n xs

drop-step :
    (i : ℕ) (xs : List Level) → i < length xs → drop i xs ≡ get_or xs i no_level ∷ drop (suc i) xs
unfolding drop
drop-step i [] h = absurd (omega arith)
drop-step zero (x ∷ xs) h = refl
drop-step (suc i) (x ∷ xs) h = drop-step i xs (omega arith)

pub drop_all : (i : ℕ) (xs : List Level) → length xs ≤ i → drop i xs ≡ []
unfolding drop
drop_all zero [] h = refl
drop_all zero (x ∷ xs) h = absurd (omega arith)
drop_all (suc i) [] h = refl
drop_all (suc i) (x ∷ xs) h = drop_all i xs (omega arith)

pub drop-min : (i : ℕ) (xs : List Level) → drop i xs ≡ drop (min i (length xs)) xs
drop-min i xs = elim (Bool-cases (ltb i (length xs))) [
  | inl inside ↦ ap (λ (k : ℕ). drop k xs) (ground (arith, inside))
  | inr past ↦
      drop_all i xs (ground (arith, past))
      ∙ sym (drop_all (min i (length xs)) xs (ground (arith, past)))
]

-- The `n` levels from index `i` on.
abbrev pub slice : ℕ → ℕ → List Level → List Level
slice zero i levels = []
slice (suc n) i levels = get_or levels i no_level ∷ slice n (suc i) levels

pub length-slice : (n i : ℕ) (levels : List Level) → length (slice n i levels) ≡ n
length-slice zero i levels = refl
length-slice (suc n) i levels = ap suc (length-slice n (suc i) levels)

pub slice-append-drop :
    (n i : ℕ) (levels : List Level)
    → i + n ≤ length levels
    → slice n i levels ++ drop (i + n) levels ≡ drop i levels
slice-append-drop zero i levels h = ap (λ (k : ℕ). drop k levels) (omega arith)
slice-append-drop (suc n) i levels h =
    let e : i + suc n ≡ suc i + n = omega arith in
    rw e (
      ap (λ r. get_or levels i no_level ∷ r) (slice-append-drop n (suc i) levels (omega arith))
      ∙ sym (drop-step i levels (omega arith)))

-- What a row should show of its levels: the first and the last price, and the total modulo 2 ^ 64.
abbrev pub first_price : List Level → ℤ
first_price [] = no_level.0
first_price (lv ∷ levels) = lv.0

abbrev pub last_price : List Level → ℤ
last_price [] = no_level.0
last_price (lv ∷ []) = lv.0
last_price (lv ∷ lw ∷ levels) = last_price (lw ∷ levels)

abbrev pub sum : List Level → ℕ
sum [] = 0
sum (lv ∷ levels) = lv.1 + sum levels

abbrev pub summary : List Level → ℤ × ℤ × ℕ
summary part = (first_price part, last_price part, sum part % 2 ^ 64)

last_price-slice :
    (n i : ℕ) (levels : List Level)
    → last_price (slice (suc n) i levels) ≡ (get_or levels (i + n) no_level).0
last_price-slice zero i levels = ap (λ (k : ℕ). (get_or levels k no_level).0) (omega arith)
last_price-slice (suc n) i levels =
    last_price-slice n (suc i) levels ∙ ap (λ (k : ℕ). (get_or levels k no_level).0) (omega arith)

total_from-slice :
    (n i acc : ℕ) (levels : List Level)
    → total_from n i (acc % 2 ^ 64) levels ≡ (acc + sum (slice n i levels)) % 2 ^ 64
unfolding total_from
total_from-slice zero i acc levels = omega arith
total_from-slice (suc n) i acc levels =
    let q = (get_or levels i no_level).1 in
    let e : (acc % 2 ^ 64 + q) % 2 ^ 64 ≡ (acc + q) % 2 ^ 64 = omega arith in
    ap (λ (t : ℕ). total_from n (suc i) t levels) e
    ∙ total_from-slice n (suc i) (acc + q) levels
    ∙ omega arith

-- A row over the indices from `start` to `end`.
pub row_slice :
    (start end m : ℕ) (levels : List Level)
    → end ≡ start + suc m
    → (
      (get_or levels start no_level).0,
      (get_or levels (end - 1) no_level).0,
      total_from (end - start) start 0 levels,
    )
      ≡ summary (slice (end - start) start levels)
row_slice start end m levels h =
    let e : end - start ≡ suc m = omega (arith, h) in
    let e1 : end - 1 ≡ start + m = omega (arith, h) in
    rw (e, e1)
      (ap₂ (λ a b. ((get_or levels start no_level).0, a, b)) (sym (last_price-slice m start levels))
        (total_from-slice (suc m) start 0 levels ∙ omega arith))

pub drop_zero : (k : ℕ) (levels : List Level) → drop (0 * k) levels ≡ levels
unfolding drop
drop_zero k levels = let e : 0 * k ≡ 0 = omega arith in rw e refl
