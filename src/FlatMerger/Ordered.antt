-- ===== src/FlatMerger/Ordered.antt =====
-- `merge_impl` of src/ingestion/FlatMerger.hpp emits in the order of `ts_recv`.
use back_tester.Prelude.{
  ℕ, zero, suc, ◌≤◌, ◌<◌, ◌≡◌, ◌==◌, ==_iff, refl, ◌∙◌, Bool, true, false, ◌&&◌, pos, Bool-cases,
  Option-cases, inl, inr, some, List, [], ◌∷◌, if◌then◌else◌, ℤ, ◌≤ℤ◌, leb_ℤ, ◌==ℤ◌, ==ℤ_iff, All,
  arith,
}
use back_tester.Event.{MarketDataEvent, default_event}
use back_tester.HierarchyMerger.{Events}
use back_tester.HierarchyMerger.Sorted.{IsSorted}
use back_tester.FlatMerger.{
  HeapKey, sum_keys, PriorityQueue, State, write, pop_next, fill, drain_heap, left_in, start,
  merge_impl,
}
use back_tester.FlatMerger.Heap.{at}
use back_tester.FlatMerger.Complete.{
  IsFilled, count, turned, top-count, turned-IsFilled, fill-IsFilled, empty-counts,
}

-- From time `t` on, each event is not after the next.
abbrev rising : ℤ → Events → Bool
rising t [] = true
rising t (e ∷ q) = leb_ℤ t e.ts_recv && rising e.ts_recv q

IsSorted-rising : (e : MarketDataEvent) (q : Events) → IsSorted (e ∷ q) → rising e.ts_recv q ≡ true
IsSorted-rising e [] s = refl
IsSorted-rising e (f ∷ q) s = ground (arith, s, IsSorted-rising f q s.1)

rising-from : (s t : ℤ) (q : Events) → s ≤ℤ t → rising t q ≡ true → rising s q ≡ true
rising-from s t [] h up = refl
rising-from s t (e ∷ q) h up = ground (arith, h, up)

abbrev first_time : Events → ℤ
first_time [] = pos 0
first_time (e ∷ q) = e.ts_recv

IsSorted-first : (q : Events) → IsSorted q → rising (first_time q) q ≡ true
IsSorted-first [] s = refl
IsSorted-first (e ∷ q) s = ground (arith, IsSorted-rising e q s)

-- 1 for a key that is not that of its buffered event, or whose queue does not rise from it.
abbrev wrong : (ℕ → MarketDataEvent) → (ℕ → Events) → HeapKey → ℕ
wrong buf queues k =
    if (k.ts_recv ==ℤ (buf k.file_idx).ts_recv) && rising k.ts_recv (queues k.file_idx)
    then 0
    else 1

-- 1 for a key that comes before time `t`.
abbrev early : ℤ → HeapKey → ℕ
early t k = if leb_ℤ t k.ts_recv then 0 else 1

early-of_All :
    (t : ℤ) (ks : List HeapKey) → All (λ j. t ≤ℤ j.ts_recv) ks → sum_keys (early t) ks ≡ 0
early-of_All t [] a = refl
early-of_All t (k ∷ ks) a = ground (arith, a, early-of_All t ks a.1)

wrong-write :
    (i : ℕ) (e : MarketDataEvent) (q : Events) (buf : ℕ → MarketDataEvent) (queues : ℕ → Events)
    (ks : List HeapKey)
    → sum_keys (at i) ks ≡ 0
    → sum_keys (wrong (write i e buf) (write i q queues)) ks ≡ sum_keys (wrong buf queues) ks
wrong-write i e q buf queues [] h = refl
wrong-write i e q buf queues (k ∷ ks) h = elim (Bool-cases (i == k.file_idx)) [
  | inl same ↦ absurd (ground (arith, h, same))
  | inr apart ↦ rw apart (omega (arith, wrong-write i e q buf queues ks (omega (arith, h))))
]

module _ {H : Type 0} ⦃pq : PriorityQueue H⦄ where
  abbrev wrongs : State H → ℕ
  wrongs st = sum_keys (wrong st.buf st.file_queues) (pq.keys st.heap)

  abbrev earlies : ℤ → State H → ℕ
  earlies t st = sum_keys (early t) (pq.keys st.heap)

  -- The queue that is popped rises, from time `t` if a key was there.
  wrongs-pop_next :
      (i : ℕ) (q : Events) (t : ℤ) (st : State H)
      → count i st ≡ 0
      → rising t q ≡ true
      → wrongs st ≡ 0
      → wrongs (pop_next i q st) ≡ 0
  unfolding pop_next
  wrongs-pop_next i [] t st c up w = w
  wrongs-pop_next i (e ∷ q) t st c up w =
      let same : (i == i) ≡ true = (==_iff i i).1 refl in
      let k =
        pq.keys-push (wrong (write i e st.buf) (write i q st.file_queues))
          (record { ts_recv = e.ts_recv; file_idx = i }) st.heap in
      let k' = rw same at k in
      ground (
        arith,
        k',
        up,
        w,
        ==ℤ_iff e.ts_recv e.ts_recv,
        wrong-write i e q st.buf st.file_queues (pq.keys st.heap) c,
      )

  earlies-pop_next :
      (i : ℕ) (q : Events) (t : ℤ) (st : State H)
      → rising t q ≡ true
      → earlies t st ≡ 0
      → earlies t (pop_next i q st) ≡ 0
  unfolding pop_next
  earlies-pop_next i [] t st up w = w
  earlies-pop_next i (e ∷ q) t st up w =
      ground (
        arith,
        pq.keys-push (early t) (record { ts_recv = e.ts_recv; file_idx = i }) st.heap,
        up,
        w,
      )

  -- What a turn finds at the top.
  top-right :
      (st : State H) (k : HeapKey) (h : H)
      → pq.top_pop st.heap ≡ some (k, h)
      → wrongs st ≡ 0
      → (k.ts_recv ≡ (st.buf k.file_idx).ts_recv)
        × (rising k.ts_recv (st.file_queues k.file_idx) ≡ true)
        × (sum_keys (wrong st.buf st.file_queues) (pq.keys h) ≡ 0)
  top-right st k h more w = ground (
    arith,
    pq.top_pop-some (wrong st.buf st.file_queues) k st.heap h more,
    w,
    ==ℤ_iff k.ts_recv (st.buf k.file_idx).ts_recv,
  )

  turned-right :
      (N : ℕ) (st : State H) (k : HeapKey) (h : H)
      → IsFilled N st
      → wrongs st ≡ 0
      → pq.top_pop st.heap ≡ some (k, h)
      → wrongs (turned k h st) ≡ 0
  turned-right N st k h s w more =
      let (same, up, rest) = top-right st k h more w in
      wrongs-pop_next k.file_idx (st.file_queues k.file_idx) k.ts_recv (record st { heap = h })
        (top-count N st k h s more).1 up rest

  -- Nothing that is emitted comes before what the heap holds.
  drain_heap-bound :
      (t : ℤ) (N n : ℕ) (st : State H)
      → IsFilled N st
      → wrongs st ≡ 0
      → earlies t st ≡ 0
      → All (λ f. t ≤ℤ f.ts_recv) (drain_heap n st)
  unfolding drain_heap
  drain_heap-bound t N zero st s w b = tt
  drain_heap-bound t N (suc n) st s w b = elim (Option-cases (pq.top_pop st.heap)) [
    | inl ended ↦ rw (ended, drain_heap) tt
    | inr ((k, h), more) ↦
        let (same, up, rest) = top-right st k h more w in
        let top : (t ≤ℤ k.ts_recv) × (sum_keys (early t) (pq.keys h) ≡ 0) =
          ground (arith, pq.top_pop-some (early t) k st.heap h more, b) in
        rw (more, drain_heap)
          (
            rw (← same) top.0,
            drain_heap-bound t N n (turned k h st) (turned-IsFilled N st k h s more)
                (turned-right N st k h s w more)
                (earlies-pop_next k.file_idx (st.file_queues k.file_idx) t (record st { heap = h })
                  (rising-from t k.ts_recv (st.file_queues k.file_idx) top.0 up) top.1),
          )
  ]

  drain_heap-IsSorted :
      (N n : ℕ) (st : State H) → IsFilled N st → wrongs st ≡ 0 → IsSorted (drain_heap n st)
  unfolding drain_heap
  drain_heap-IsSorted N zero st s w = tt
  drain_heap-IsSorted N (suc n) st s w = elim (Option-cases (pq.top_pop st.heap)) [
    | inl ended ↦ rw (ended, drain_heap) tt
    | inr ((k, h), more) ↦
        let (same, up, rest) = top-right st k h more w in
        let s' = turned-IsFilled N st k h s more in
        let w' = turned-right N st k h s w more in
        rw (more, drain_heap)
          (
            rw (← same) (
                drain_heap-bound k.ts_recv N n (turned k h st) s' w' (
                  earlies-pop_next k.file_idx (st.file_queues k.file_idx) k.ts_recv
                    (record st { heap = h }) up
                    (early-of_All k.ts_recv (pq.keys h) (pq.top_pop-first k st.heap h more)))),
            drain_heap-IsSorted N n (turned k h st) s' w',
          )
  ]

  pop_next-above :
      (i j : ℕ) (q : Events) (st : State H)
      → (i == j) ≡ false
      → (pop_next i q st).file_queues j ≡ st.file_queues j
  unfolding pop_next
  pop_next-above i j [] st h = refl
  pop_next-above i j (e ∷ q) st h = rw h refl

  fill-above :
      (n j : ℕ) (queues : ℕ → Events) (st : State H)
      → st ≡ start queues
      → n ≤ j
      → (fill n st).file_queues j ≡ queues j
  unfolding fill
  fill-above zero j queues st e le = rw e refl
  fill-above (suc n) j queues st e le =
      pop_next-above n j ((fill n st).file_queues n) (fill n st) (ground (arith, le))
      ∙ fill-above n j queues st e (omega (arith, le))

  fill-right :
      (n N : ℕ) (queues : ℕ → Events) (st : State H)
      → st ≡ start queues
      → n ≤ N
      → ((j : ℕ) → j < N → IsSorted (queues j))
      → wrongs (fill n st) ≡ 0
  unfolding fill
  fill-right zero N queues st e le s =
      rw e (empty-counts (pq.keys pq.new_heap) (wrong (λ i. default_event) queues) pq.keys-new_heap)
  fill-right (suc n) N queues st e le s =
      let st' : State H = fill n (start queues) in
      let f : IsFilled n st' = fill-IsFilled n queues in
      let q : st'.file_queues n ≡ queues n =
        fill-above n n queues (start queues) refl (omega arith) in
      rw e (
        wrongs-pop_next n (st'.file_queues n) (first_time (queues n)) st' (ground (arith, f.once n))
          (rw q (IsSorted-first (queues n) (s n le)))
          (fill-right n N queues (start queues) refl (omega (arith, le)) s))

-- If each of the `N` queues brings its events by `ts_recv`, `merge_impl` emits in that order, whichever
-- of the first keys the heap gives.
pub merge_impl-IsSorted :
    {H : Type 0} (pq : PriorityQueue H) (N : ℕ) (queues : ℕ → Events)
    → ((j : ℕ) → j < N → IsSorted (queues j))
    → IsSorted (merge_impl pq N queues)
unfolding merge_impl
merge_impl-IsSorted pq N queues s =
    drain_heap-IsSorted ⦃pq = pq⦄ N (left_in N queues) (fill ⦃pq = pq⦄ N (start ⦃pq = pq⦄ queues))
      (fill-IsFilled ⦃pq = pq⦄ N queues)
      (fill-right ⦃pq = pq⦄ N N queues (start ⦃pq = pq⦄ queues) refl (omega arith) s)
