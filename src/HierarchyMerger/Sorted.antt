-- ===== src/HierarchyMerger/Sorted.antt =====
-- `merge_two` of src/ingestion/HierarchyMerger.hpp against the merge of two lists.
use back_tester.Prelude.{
  ℕ, zero, suc, ◌+◌, ◌≡◌, refl, Bool-cases, inl, inr, Option, none, some, [], ◌∷◌, length, ltb_ℤ,
  ◌≤ℤ◌, All, All-imp, arith,
}
use back_tester.Event.{MarketDataEvent}
use back_tester.HierarchyMerger.{Events, pop_one, merge_loop, merge_two}

-- Each event is not after the ones that follow.
abbrev pub IsSorted : Events → Type 0
IsSorted [] = Unit
IsSorted (e ∷ es) = All (λ f. e.ts_recv ≤ℤ f.ts_recv) es × IsSorted es

-- The sum of a weight over the events: two lists with equal sums for every weight hold the same
-- events, each as often.
abbrev pub sum : (MarketDataEvent → ℕ) → Events → ℕ
sum f [] = 0
sum f (e ∷ es) = f e + sum f es

abbrev pub in_hand : Option MarketDataEvent → Events → Events
in_hand none q = q
in_hand (some e) q = e ∷ q

-- An empty hand comes with an empty queue.
abbrev Ready : Option MarketDataEvent → Events → Type 0
Ready none q = q ≡ []
Ready (some e) q = Unit

Ready-pop_one : (q : Events) → Ready (pop_one q).0 (pop_one q).1
Ready-pop_one [] = refl
Ready-pop_one (e ∷ q) = tt

in_hand-pop_one : (q : Events) → in_hand (pop_one q).0 (pop_one q).1 ≡ q
in_hand-pop_one [] = refl
in_hand-pop_one (e ∷ q) = refl

abbrev Lower : MarketDataEvent → Events → Type 0
Lower x es = All (λ f. x.ts_recv ≤ℤ f.ts_recv) es

abbrev left_over : Option MarketDataEvent → Option MarketDataEvent → Events → Events → ℕ
left_over ea eb a b = length (in_hand ea a) + length (in_hand eb b)

-- With enough turns nothing is lost and nothing is made up.
merge_loop-sum :
    (f : MarketDataEvent → ℕ) (n : ℕ) (ea eb : Option MarketDataEvent) (a b : Events)
    → Ready ea a
    → Ready eb b
    → left_over ea eb a b ≡ n
    → sum f (merge_loop n ea eb a b) ≡ sum f (in_hand ea a) + sum f (in_hand eb b)
unfolding merge_loop
merge_loop-sum f zero none none a b ra rb h = rw (ra, rb) refl
merge_loop-sum f zero (some x) eb a b ra rb h = absurd (omega (arith, h))
merge_loop-sum f zero none (some y) a b ra rb h = absurd (omega (arith, h))
merge_loop-sum f (suc n) none none a b ra rb h = rw (ra, rb) refl
merge_loop-sum f (suc n) (some x) (some y) a b ra rb h =
    let from_b = rw (in_hand-pop_one b) at (
      merge_loop-sum f n (some x) (pop_one b).0 a (pop_one b).1 tt (Ready-pop_one b)
        (rw (in_hand-pop_one b) (omega (arith, h)))) in
    let from_a = rw (in_hand-pop_one a) at (
      merge_loop-sum f n (pop_one a).0 (some y) (pop_one a).1 b (Ready-pop_one a) tt
        (rw (in_hand-pop_one a) (omega (arith, h)))) in
    elim (Bool-cases (ltb_ℤ y.ts_recv x.ts_recv)) [
      | inl later ↦ rw later (omega (arith, from_b))
      | inr first ↦ rw first (omega (arith, from_a))
    ]
merge_loop-sum f (suc n) (some x) none a b ra rb h =
    let rest = rw (in_hand-pop_one a) at (
      merge_loop-sum f n (pop_one a).0 none (pop_one a).1 b (Ready-pop_one a) rb
        (rw (in_hand-pop_one a) (omega (arith, h)))) in
    omega (arith, rest)
merge_loop-sum f (suc n) none (some y) a b ra rb h =
    let rest = rw (in_hand-pop_one b) at (
      merge_loop-sum f n none (pop_one b).0 a (pop_one b).1 ra (Ready-pop_one b)
        (rw (in_hand-pop_one b) (omega (arith, h)))) in
    omega (arith, rest)

-- `merge_two` pushes the events of both queues, each as often as it came.
pub merge_two-sum :
    (f : MarketDataEvent → ℕ) (a b : Events) → sum f (merge_two a b) ≡ sum f a + sum f b
merge_two-sum f a b =
    rw (in_hand-pop_one a, in_hand-pop_one b) at
      (merge_loop-sum f (length a + length b) (pop_one a).0 (pop_one b).0 (pop_one a).1
        (pop_one b).1 (Ready-pop_one a) (Ready-pop_one b)
        (rw (in_hand-pop_one a, in_hand-pop_one b) refl))

merge_loop-Lower :
    (m : MarketDataEvent) (n : ℕ) (ea eb : Option MarketDataEvent) (a b : Events)
    → Lower m (in_hand ea a)
    → Lower m (in_hand eb b)
    → Lower m (merge_loop n ea eb a b)
unfolding merge_loop
merge_loop-Lower m zero ea eb a b la lb = tt
merge_loop-Lower m (suc n) none none a b la lb = tt
merge_loop-Lower m (suc n) (some x) (some y) a b la lb =
    let from_b =
      merge_loop-Lower m n (some x) (pop_one b).0 a (pop_one b).1 la
        (rw (in_hand-pop_one b) lb.1) in
    let from_a =
      merge_loop-Lower m n (pop_one a).0 (some y) (pop_one a).1 b (rw (in_hand-pop_one a) la.1)
        lb in
    elim (Bool-cases (ltb_ℤ y.ts_recv x.ts_recv)) [
      | inl later ↦ rw later (lb.0, from_b)
      | inr first ↦ rw first (la.0, from_a)
    ]
merge_loop-Lower m (suc n) (some x) none a b la lb =
    (la.0, merge_loop-Lower m n (pop_one a).0 none (pop_one a).1 b (rw (in_hand-pop_one a) la.1) lb)
merge_loop-Lower m (suc n) none (some y) a b la lb =
    (lb.0, merge_loop-Lower m n none (pop_one b).0 a (pop_one b).1 la (rw (in_hand-pop_one b) lb.1))

Lower-trans :
    (x y : MarketDataEvent) (es : Events) → x.ts_recv ≤ℤ y.ts_recv → Lower y es → Lower x es
Lower-trans x y es h l = All-imp (λ f k. ground (arith, h, k)) es l

merge_loop-IsSorted :
    (n : ℕ) (ea eb : Option MarketDataEvent) (a b : Events)
    → Ready ea a
    → Ready eb b
    → IsSorted (in_hand ea a)
    → IsSorted (in_hand eb b)
    → IsSorted (merge_loop n ea eb a b)
unfolding merge_loop
merge_loop-IsSorted zero ea eb a b ra rb sa sb = tt
merge_loop-IsSorted (suc n) none none a b ra rb sa sb = tt
merge_loop-IsSorted (suc n) (some x) (some y) a b ra rb sa sb =
    elim (Bool-cases (ltb_ℤ y.ts_recv x.ts_recv)) [
      | inl later ↦
          let le : y.ts_recv ≤ℤ x.ts_recv = ground (arith, later) in
          rw later (
            merge_loop-Lower y n (some x) (pop_one b).0 a (pop_one b).1
                (le, Lower-trans y x a le sa.0) (rw (in_hand-pop_one b) sb.0),
            merge_loop-IsSorted n (some x) (pop_one b).0 a (pop_one b).1 tt (Ready-pop_one b) sa
                (rw (in_hand-pop_one b) sb.1),
          )
      | inr first ↦
          let le : x.ts_recv ≤ℤ y.ts_recv = ground (arith, first) in
          rw first (
            merge_loop-Lower x n (pop_one a).0 (some y) (pop_one a).1 b
                (rw (in_hand-pop_one a) sa.0) (le, Lower-trans x y b le sb.0),
            merge_loop-IsSorted n (pop_one a).0 (some y) (pop_one a).1 b (Ready-pop_one a) tt
                (rw (in_hand-pop_one a) sa.1) sb,
          )
    ]
merge_loop-IsSorted (suc n) (some x) none a b ra rb sa sb = (
  merge_loop-Lower x n (pop_one a).0 none (pop_one a).1 b (rw (in_hand-pop_one a) sa.0) (rw rb tt),
  merge_loop-IsSorted n (pop_one a).0 none (pop_one a).1 b (Ready-pop_one a) rb
      (rw (in_hand-pop_one a) sa.1) sb,
)
merge_loop-IsSorted (suc n) none (some y) a b ra rb sa sb = (
  merge_loop-Lower y n none (pop_one b).0 a (pop_one b).1 (rw ra tt) (rw (in_hand-pop_one b) sb.0),
  merge_loop-IsSorted n none (pop_one b).0 a (pop_one b).1 ra (Ready-pop_one b) sa
      (rw (in_hand-pop_one b) sb.1),
)

-- If both queues bring their events by `ts_recv`, so does `merge_two`.
pub merge_two-IsSorted : (a b : Events) → IsSorted a → IsSorted b → IsSorted (merge_two a b)
merge_two-IsSorted a b sa sb =
    merge_loop-IsSorted (length a + length b) (pop_one a).0 (pop_one b).0 (pop_one a).1
      (pop_one b).1 (Ready-pop_one a) (Ready-pop_one b) (rw (in_hand-pop_one a) sa)
      (rw (in_hand-pop_one b) sb)
