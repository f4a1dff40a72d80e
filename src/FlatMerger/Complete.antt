-- ===== src/FlatMerger/Complete.antt =====
-- `merge_impl` of src/ingestion/FlatMerger.hpp emits every event once.
use back_tester.Prelude.{
  ℕ, zero, suc, ◌+◌, ◌≤◌, ◌<◌, ◌≡◌, ◌==◌, ==_iff, refl, sym, ap, ◌∙◌, Bool-cases, Option-cases, inl,
  inr, some, true, false, List, [], ◌∷◌, ltb, if◌then◌else◌, arith,
}
use back_tester.Event.{MarketDataEvent, default_event}
use back_tester.HierarchyMerger.{Events}
use back_tester.HierarchyMerger.Sorted.{sum}
use back_tester.FlatMerger.{
  HeapKey, sum_keys, PriorityQueue, State, write, pop_next, fill, drain_heap, left_in, start,
  merge_impl,
}
use back_tester.FlatMerger.Heap.{
  at, buffered, sum_keys-write, sum_queues, sum_queues-write, sum_queues-empty, one,
  left_in-sum_queues,
}

pub empty-counts : (ks : List HeapKey) (f : HeapKey → ℕ) → ks ≡ [] → sum_keys f ks ≡ 0
empty-counts ks f e = ap (sum_keys f) e

no_keys :
    (ks : List HeapKey) (buf : ℕ → MarketDataEvent) → sum_keys (buffered one buf) ks ≡ 0 → ks ≡ []
no_keys [] buf h = refl
no_keys (k ∷ ks) buf h = absurd (omega (arith, h))

module _ {H : Type 0} ⦃pq : PriorityQueue H⦄ where
  abbrev pub count : ℕ → State H → ℕ
  count j st = sum_keys (at j) (pq.keys st.heap)

  -- What is in the heap and, below `N`, in the queues.
  abbrev weight_of : (MarketDataEvent → ℕ) → ℕ → State H → ℕ
  weight_of f N st = sum_keys (buffered f st.buf) (pq.keys st.heap) + sum_queues f N st.file_queues

  -- Each queue below `n` has at most one key in the heap, and is empty if it has none; the others have
  -- no key.
  pub record IsFilled (n : ℕ) (st : State H) : Type 0 where
    pub once : (j : ℕ) → count j st ≤ (if ltb j n then 1 else 0)
    pub full : (j : ℕ) → j < n → count j st ≡ 0 → st.file_queues j ≡ []

  pub count-pop_next :
      (i j : ℕ) (q : Events) (st : State H)
      → count j (pop_next i q st) ≤ count j st + (if i == j then 1 else 0)
  unfolding pop_next
  count-pop_next i j [] st = omega arith
  count-pop_next i j (e ∷ q) st =
      omega (arith, pq.keys-push (at j) (record { ts_recv = e.ts_recv; file_idx = i }) st.heap)

  weight-pop_next :
      (f : MarketDataEvent → ℕ) (N i : ℕ) (q : Events) (st : State H)
      → i < N
      → count i st ≡ 0
      → st.file_queues i ≡ q
      → weight_of f N (pop_next i q st) ≡ weight_of f N st
  unfolding pop_next
  weight-pop_next f N i [] st lt c e = refl
  weight-pop_next f N i (x ∷ q) st lt c e =
      let same : (i == i) ≡ true = (==_iff i i).1 refl in
      let k =
        pq.keys-push (buffered f (write i x st.buf)) (record { ts_recv = x.ts_recv; file_idx = i })
          st.heap in
      omega (
        arith,
        rw same at k,
        sum_keys-write f i x st.buf (pq.keys st.heap) c,
        sum_queues-write f N i q st.file_queues lt,
        ap (sum f) e,
      )

  full-pop_next :
      (i j : ℕ) (q : Events) (st : State H)
      → st.file_queues i ≡ q
      → (count j st ≡ 0 → (i == j) ≡ false → st.file_queues j ≡ [])
      → count j (pop_next i q st) ≡ 0
      → (pop_next i q st).file_queues j ≡ []
  unfolding pop_next
  full-pop_next i j [] st e old c = elim (Bool-cases (i == j)) [
    | inl same ↦ rw (← (==_iff i j).0 same) e
    | inr apart ↦ old c apart
  ]
  full-pop_next i j (x ∷ q) st e old c =
      let k = pq.keys-push (at j) (record { ts_recv = x.ts_recv; file_idx = i }) st.heap in
      elim (Bool-cases (i == j)) [
        | inl same ↦ absurd (ground (arith, same, c, k))
        | inr apart ↦ rw apart (old (ground (arith, c, k)) apart)
      ]

  new-IsFilled : (queues : ℕ → Events) → IsFilled 0 (start queues)
  new-IsFilled queues = record {
    once = λ j. ground (arith, empty-counts (pq.keys pq.new_heap) (at j) pq.keys-new_heap);
    full = λ j lt. absurd (omega (arith, lt));
  }

  pub fill-IsFilled : (n : ℕ) (queues : ℕ → Events) → IsFilled n (fill n (start queues))
  unfolding fill
  fill-IsFilled zero queues = new-IsFilled queues
  fill-IsFilled (suc n) queues =
      let st = fill n (start queues) in
      let s = fill-IsFilled n queues in
      record {
        once = λ j. ground (arith, s.once j, s.once n, count-pop_next n j (st.file_queues n) st);
        full = λ j lt.
            full-pop_next n j (st.file_queues n) st refl
              (λ c apart. s.full j (ground (arith, lt, apart)) c);
      }

  fill-weight :
      (f : MarketDataEvent → ℕ) (N n : ℕ) (queues : ℕ → Events) (st : State H)
      → st ≡ start queues
      → n ≤ N
      → weight_of f N (fill n st) ≡ sum_queues f N queues
  unfolding fill
  fill-weight f N zero queues st e le = rw e (
      omega (
        arith,
        empty-counts (pq.keys pq.new_heap) (buffered f (λ i. default_event)) pq.keys-new_heap,
      ))
  fill-weight f N (suc n) queues st e le =
      let st' = fill n (start queues) in
      let s = fill-IsFilled n queues in
      rw e (
        weight-pop_next f N n (st'.file_queues n) st' le (ground (arith, s.once n)) refl
        ∙ fill-weight f N n queues (start queues) refl (omega (arith, le)))

  -- A heap that is empty means that all is.
  weight-empty :
      (f : MarketDataEvent → ℕ) (N : ℕ) (st : State H)
      → IsFilled N st
      → pq.keys st.heap ≡ []
      → weight_of f N st ≡ 0
  weight-empty f N st s e = omega (
    arith,
    empty-counts (pq.keys st.heap) (buffered f st.buf) e,
    sum_queues-empty f N st.file_queues
        (λ i lt. s.full i lt (empty-counts (pq.keys st.heap) (at i) e)),
  )

  -- What a turn of the second loop leaves.
  abbrev pub turned : HeapKey → H → State H → State H
  turned k h st = pop_next k.file_idx (st.file_queues k.file_idx) (record st { heap = h })

  pub top-count :
      (N : ℕ) (st : State H) (k : HeapKey) (h : H)
      → IsFilled N st
      → pq.top_pop st.heap ≡ some (k, h)
      → (k.file_idx < N) × (sum_keys (at k.file_idx) (pq.keys h) ≡ 0)
  top-count N st k h s more = ground (
    arith,
    s.once k.file_idx,
    pq.top_pop-some (at k.file_idx) k st.heap h more,
    ==_iff k.file_idx k.file_idx,
  )

  pub turned-IsFilled :
      (N : ℕ) (st : State H) (k : HeapKey) (h : H)
      → IsFilled N st
      → pq.top_pop st.heap ≡ some (k, h)
      → IsFilled N (turned k h st)
  turned-IsFilled N st k h s more =
      let st' = record st { heap = h } in
      record {
        once = λ j. omega (
          arith,
          s.once j,
          count-pop_next k.file_idx j (st.file_queues k.file_idx) st',
          pq.top_pop-some (at j) k st.heap h more,
        );
        full = λ j lt. full-pop_next k.file_idx j (st.file_queues k.file_idx) st' refl (λ c apart.
            s.full j lt (ground (arith, pq.top_pop-some (at j) k st.heap h more, c, apart)));
      }

  turned-weight :
      (f : MarketDataEvent → ℕ) (N : ℕ) (st : State H) (k : HeapKey) (h : H)
      → IsFilled N st
      → pq.top_pop st.heap ≡ some (k, h)
      → f (st.buf k.file_idx) + weight_of f N (turned k h st) ≡ weight_of f N st
  turned-weight f N st k h s more =
      let (lt, gone) = top-count N st k h s more in
      omega (
        arith,
        pq.top_pop-some (buffered f st.buf) k st.heap h more,
        weight-pop_next f N k.file_idx (st.file_queues k.file_idx) (record st { heap = h }) lt gone
            refl,
      )

  drain_heap-sum :
      (f : MarketDataEvent → ℕ) (N n : ℕ) (st : State H)
      → IsFilled N st
      → weight_of one N st ≡ n
      → sum f (drain_heap n st) ≡ weight_of f N st
  unfolding drain_heap
  drain_heap-sum f N zero st s w =
      sym (weight-empty f N st s (no_keys (pq.keys st.heap) st.buf (omega (arith, w))))
  drain_heap-sum f N (suc n) st s w = elim (Option-cases (pq.top_pop st.heap)) [
    | inl ended ↦
        rw (ended, drain_heap) (sym (weight-empty f N st s (pq.top_pop-none st.heap ended)))
    | inr ((k, h), more) ↦
        let rest =
          drain_heap-sum f N n (turned k h st) (turned-IsFilled N st k h s more)
            (omega (arith, w, turned-weight one N st k h s more)) in
        rw (more, drain_heap) (omega (arith, rest, turned-weight f N st k h s more))
  ]

-- For any number of queues, and whichever of the first keys the heap gives, `merge_impl` emits the
-- events of all queues, each as often as it came: any weight of events sums to the same.
pub merge_impl-sum :
    {H : Type 0} (pq : PriorityQueue H) (f : MarketDataEvent → ℕ) (N : ℕ) (queues : ℕ → Events)
    → sum f (merge_impl pq N queues) ≡ sum_queues f N queues
unfolding merge_impl
merge_impl-sum pq f N queues =
    let st = fill ⦃pq = pq⦄ N (start ⦃pq = pq⦄ queues) in
    let w = λ (g : MarketDataEvent → ℕ).
      fill-weight ⦃pq = pq⦄ g N N queues (start ⦃pq = pq⦄ queues) refl (omega arith) in
    drain_heap-sum ⦃pq = pq⦄ f N (left_in N queues) st (fill-IsFilled ⦃pq = pq⦄ N queues)
      (w one ∙ sym (left_in-sum_queues N queues))
    ∙ w f
