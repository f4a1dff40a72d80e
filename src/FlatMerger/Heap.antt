-- ===== src/FlatMerger/Heap.antt =====
-- Sums over the keys of the heap and over the queues of src/ingestion/FlatMerger.hpp, and what a write
-- at one index does to them.
use back_tester.Prelude.{
  ℕ, zero, suc, ◌+◌, ◌≤◌, ◌<◌, ◌≡◌, ◌==◌, ==_iff, refl, ap, Bool-cases, inl, inr, List, [], ◌∷◌,
  length, if◌then◌else◌, arith,
}
use back_tester.Event.{MarketDataEvent}
use back_tester.HierarchyMerger.{Events}
use back_tester.HierarchyMerger.Sorted.{sum}
use back_tester.FlatMerger.{HeapKey, sum_keys, write, left_in}

-- The keys with index `i`.
abbrev pub at : ℕ → HeapKey → ℕ
at i k = if k.file_idx == i then 1 else 0

abbrev pub buffered : (MarketDataEvent → ℕ) → (ℕ → MarketDataEvent) → HeapKey → ℕ
buffered f buf k = f (buf k.file_idx)

pub sum_keys-write :
    (f : MarketDataEvent → ℕ) (i : ℕ) (e : MarketDataEvent) (buf : ℕ → MarketDataEvent)
    (ks : List HeapKey)
    → sum_keys (at i) ks ≡ 0
    → sum_keys (buffered f (write i e buf)) ks ≡ sum_keys (buffered f buf) ks
sum_keys-write f i e buf [] h = refl
sum_keys-write f i e buf (k ∷ ks) h = elim (Bool-cases (i == k.file_idx)) [
  | inl same ↦ absurd (ground (arith, h, same))
  | inr apart ↦ rw apart (omega (arith, sum_keys-write f i e buf ks (omega (arith, h))))
]

-- The sum over the queues below `n`.
abbrev pub sum_queues : (MarketDataEvent → ℕ) → ℕ → (ℕ → Events) → ℕ
sum_queues f zero queues = 0
sum_queues f (suc n) queues = sum f (queues n) + sum_queues f n queues

sum_queues-above :
    (f : MarketDataEvent → ℕ) (n i : ℕ) (q : Events) (queues : ℕ → Events)
    → n ≤ i
    → sum_queues f n (write i q queues) ≡ sum_queues f n queues
sum_queues-above f zero i q queues h = refl
sum_queues-above f (suc n) i q queues h = elim (Bool-cases (i == n)) [
  | inl same ↦ absurd (ground (arith, same, h))
  | inr apart ↦ rw apart (omega (arith, sum_queues-above f n i q queues (omega (arith, h))))
]

pub sum_queues-write :
    (f : MarketDataEvent → ℕ) (n i : ℕ) (q : Events) (queues : ℕ → Events)
    → i < n
    → sum_queues f n (write i q queues) + sum f (queues i) ≡ sum_queues f n queues + sum f q
sum_queues-write f zero i q queues h = absurd (omega (arith, h))
sum_queues-write f (suc n) i q queues h = elim (Bool-cases (i == n)) [
  | inl same ↦ rw same (
      omega (
        arith,
        sum_queues-above f n i q queues (ground (arith, same)),
        ap (λ j. sum f (queues j)) ((==_iff i n).0 same),
      ))
  | inr apart ↦ rw apart (omega (arith, sum_queues-write f n i q queues (ground (arith, h, apart))))
]

pub sum_queues-empty :
    (f : MarketDataEvent → ℕ) (n : ℕ) (queues : ℕ → Events)
    → ((i : ℕ) → i < n → queues i ≡ [])
    → sum_queues f n queues ≡ 0
sum_queues-empty f zero queues h = refl
sum_queues-empty f (suc n) queues h = omega (
  arith,
  ap (sum f) (h n (omega arith)),
  sum_queues-empty f n queues (λ i lt. h i (omega (arith, lt))),
)

abbrev pub one : MarketDataEvent → ℕ
one e = 1

length-sum : (q : Events) → length q ≡ sum one q
length-sum [] = refl
length-sum (e ∷ q) = omega (arith, length-sum q)

pub left_in-sum_queues : (n : ℕ) (queues : ℕ → Events) → left_in n queues ≡ sum_queues one n queues
left_in-sum_queues zero queues = refl
left_in-sum_queues (suc n) queues =
    omega (arith, length-sum (queues n), left_in-sum_queues n queues)
