-- ===== src/HierarchyMerger/Rounds.antt =====
-- `run_impl` of src/ingestion/HierarchyMerger.hpp: the pairing ends, and what reaches the output.
use back_tester.Prelude.{
  ℕ, zero, suc, ◌+◌, ◌≤◌, ◌≡◌, refl, ◌∙◌, Bool-cases, inl, inr, List, [], ◌∷◌, length, leb, All,
  arith,
}
use back_tester.Event.{MarketDataEvent}
use back_tester.HierarchyMerger.{Events, drain, pair_up, rounds, final_merge, run_impl}
use back_tester.HierarchyMerger.Sorted.{IsSorted, sum, merge_two-sum, merge_two-IsSorted}

-- The sum of a weight over the events of all queues.
abbrev pub sum_all : (MarketDataEvent → ℕ) → List Events → ℕ
sum_all f [] = 0
sum_all f (q ∷ qs) = sum f q + sum_all f qs

pair_up-sum :
    (f : MarketDataEvent → ℕ) (cur : List Events) → sum_all f (pair_up cur) ≡ sum_all f cur
unfolding pair_up
pair_up-sum f [] = refl
pair_up-sum f (q ∷ []) = refl
pair_up-sum f (q0 ∷ q1 ∷ cur) = omega (arith, merge_two-sum f q0 q1, pair_up-sum f cur)

pair_up-IsSorted : (cur : List Events) → All IsSorted cur → All IsSorted (pair_up cur)
unfolding pair_up
pair_up-IsSorted [] s = tt
pair_up-IsSorted (q ∷ []) s = s
pair_up-IsSorted (q0 ∷ q1 ∷ cur) s =
    (merge_two-IsSorted q0 q1 s.0 s.1.0, pair_up-IsSorted cur s.1.1)

length-pair_up :
    (cur : List Events) → length (pair_up cur) + length (pair_up cur) ≤ suc (length cur)
unfolding pair_up
length-pair_up [] = omega arith
length-pair_up (q ∷ []) = omega arith
length-pair_up (q0 ∷ q1 ∷ cur) = omega (arith, length-pair_up cur)

rounds-sum :
    (f : MarketDataEvent → ℕ) (n : ℕ) (cur : List Events) → sum_all f (rounds n cur) ≡ sum_all f cur
unfolding rounds
rounds-sum f zero cur = refl
rounds-sum f (suc n) cur = elim (Bool-cases (leb (length cur) 2)) [
  | inl few ↦ rw few refl
  | inr many ↦ rw many (rounds-sum f n (pair_up cur) ∙ pair_up-sum f cur)
]

rounds-IsSorted : (n : ℕ) (cur : List Events) → All IsSorted cur → All IsSorted (rounds n cur)
unfolding rounds
rounds-IsSorted zero cur s = s
rounds-IsSorted (suc n) cur s = elim (Bool-cases (leb (length cur) 2)) [
  | inl few ↦ rw few s
  | inr many ↦ rw many (rounds-IsSorted n (pair_up cur) (pair_up-IsSorted cur s))
]

-- With a turn for each queue the loop gets down to two.
length-rounds : (n : ℕ) (cur : List Events) → length cur ≤ suc n → length (rounds n cur) ≤ 2
unfolding rounds
length-rounds zero cur h = omega (arith, h)
length-rounds (suc n) cur h = elim (Bool-cases (leb (length cur) 2)) [
  | inl few ↦ rw few (ground (arith, few))
  | inr many ↦ rw many (length-rounds n (pair_up cur) (ground (arith, many, h, length-pair_up cur)))
]

drain_all : (q : Events) → drain q ≡ q
drain_all [] = refl
drain_all (e ∷ q) = rw (drain_all q) refl

final_merge-sum :
    (f : MarketDataEvent → ℕ) (cur : List Events)
    → length cur ≤ 2
    → sum f (final_merge cur) ≡ sum_all f cur
final_merge-sum f [] h = refl
final_merge-sum f (q ∷ []) h = rw (drain_all q) (omega arith)
final_merge-sum f (q0 ∷ q1 ∷ []) h = omega (arith, merge_two-sum f q0 q1)
final_merge-sum f (q0 ∷ q1 ∷ q2 ∷ cur) h = absurd (omega (arith, h))

-- The output of `run_impl` holds the events of all queues, each as often as it came: any weight of
-- events sums to the same.
pub run_impl-sum :
    (f : MarketDataEvent → ℕ) (cur : List Events) → sum f (run_impl cur) ≡ sum_all f cur
run_impl-sum f cur =
    final_merge-sum f (rounds (length cur) cur) (length-rounds (length cur) cur (omega arith))
    ∙ rounds-sum f (length cur) cur

final_merge-IsSorted : (cur : List Events) → All IsSorted cur → IsSorted (final_merge cur)
final_merge-IsSorted [] s = tt
final_merge-IsSorted (q ∷ []) s = rw (drain_all q) s.0
final_merge-IsSorted (q0 ∷ q1 ∷ cur) s = merge_two-IsSorted q0 q1 s.0 s.1.0

-- If every queue brings its events by `ts_recv`, the output of `run_impl` is in that order.
pub run_impl-IsSorted : (cur : List Events) → All IsSorted cur → IsSorted (run_impl cur)
run_impl-IsSorted cur s =
    final_merge-IsSorted (rounds (length cur) cur) (rounds-IsSorted (length cur) cur s)
