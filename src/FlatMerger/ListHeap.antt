-- ===== src/FlatMerger/ListHeap.antt =====
-- A list as the heap of src/ingestion/FlatMerger.hpp.
use back_tester.Prelude.{
  ℕ, ◌+◌, ◌≡◌, refl, ap, Bool-cases, inl, inr, Option, none, some, List, [], ◌∷◌, ltb_ℤ, ◌≤ℤ◌, All,
  All-imp, if◌then◌else◌, arith,
}
use back_tester.FlatMerger.{HeapKey, sum_keys, PriorityQueue}

-- The first of `k ∷ ks`, and the others.
select : HeapKey → List HeapKey → HeapKey × List HeapKey
select k [] = (k, [])
select k (j ∷ ks) =
    let (m, r) = select j ks in
    (if ltb_ℤ m.ts_recv k.ts_recv then m else k, if ltb_ℤ m.ts_recv k.ts_recv then k ∷ r else m ∷ r)

select-sum :
    (f : HeapKey → ℕ) (k : HeapKey) (ks : List HeapKey)
    → f k + sum_keys f ks ≡ f (select k ks).0 + sum_keys f (select k ks).1
unfolding select
select-sum f k [] = refl
select-sum f k (j ∷ ks) =
    let m = (select j ks).0 in
    elim (Bool-cases (ltb_ℤ m.ts_recv k.ts_recv)) [
      | inl less ↦ rw less (omega (arith, select-sum f j ks))
      | inr more ↦ rw more (omega (arith, select-sum f j ks))
    ]

select-first :
    (k : HeapKey) (ks : List HeapKey)
    → All (λ j. (select k ks).0.ts_recv ≤ℤ j.ts_recv) (select k ks).1
unfolding select
select-first k [] = tt
select-first k (j ∷ ks) =
    let m = (select j ks).0 in
    elim (Bool-cases (ltb_ℤ m.ts_recv k.ts_recv)) [
      | inl less ↦ rw less (ground (arith, less), select-first j ks)
      | inr more ↦
          let le : k.ts_recv ≤ℤ m.ts_recv = ground (arith, more) in
          rw more (le, All-imp (λ i h. ground (arith, le, h)) (select j ks).1 (select-first j ks))
    ]

top_of : List HeapKey → Option (HeapKey × List HeapKey)
top_of [] = none
top_of (k ∷ ks) = some (select k ks)

top_of-none : (ks : List HeapKey) → top_of ks ≡ none → ks ≡ []
unfolding top_of
top_of-none [] h = refl
top_of-none (k ∷ ks) h = absurd (cc)

or_same : HeapKey × List HeapKey → Option (HeapKey × List HeapKey) → HeapKey × List HeapKey
or_same d none = d
or_same d (some x) = x

top_of-some :
    (f : HeapKey → ℕ) (k : HeapKey) (ks rest : List HeapKey)
    → top_of ks ≡ some (k, rest)
    → sum_keys f ks ≡ f k + sum_keys f rest
unfolding top_of or_same
top_of-some f k [] rest h = absurd (cc)
top_of-some f k (j ∷ ks) rest h =
    let e : select j ks ≡ (k, rest) = ap (or_same (k, rest)) h in rw e at (select-sum f j ks)

top_of-first :
    (k : HeapKey) (ks rest : List HeapKey)
    → top_of ks ≡ some (k, rest)
    → All (λ j. k.ts_recv ≤ℤ j.ts_recv) rest
unfolding top_of or_same
top_of-first k [] rest h = absurd (cc)
top_of-first k (j ∷ ks) rest h =
    let e : select j ks ≡ (k, rest) = ap (or_same (k, rest)) h in rw e at (select-first j ks)

pub list_heap : PriorityQueue (List HeapKey)
list_heap = record {
  new_heap = [];
  push = λ k ks. k ∷ ks;
  top_pop = top_of;
  keys = λ ks. ks;
  keys-new_heap = refl;
  keys-push = λ f k ks. refl;
  top_pop-none = top_of-none;
  top_pop-some = top_of-some;
  top_pop-first = top_of-first;
}
