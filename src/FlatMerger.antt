-- ===== src/FlatMerger.antt =====
-- src/ingestion/FlatMerger.hpp. A queue that a producer fills and closes is the list of its events, as
-- in `HierarchyMerger`. The heap is a parameter with the documented behaviour of `std::priority_queue`
-- under the comparison of `merge_impl`. `emit` is the list of what it is called with.
pub mod Heap
pub mod Complete
pub mod ListHeap
pub mod Ordered
use back_tester.Prelude.{
  ℕ, zero, suc, ◌+◌, ◌≡◌, ◌==◌, Option, none, some, List, [], ◌∷◌, ℤ, ◌≤ℤ◌, All, length,
  if◌then◌else◌,
}
use back_tester.Event.{MarketDataEvent, default_event}
use back_tester.HierarchyMerger.{Events}

pub record HeapKey : Type 0 where
  pub ts_recv : ℤ
  pub file_idx : ℕ

-- The sum of a weight over the keys.
abbrev pub sum_keys : (HeapKey → ℕ) → List HeapKey → ℕ
sum_keys f [] = 0
sum_keys f (k ∷ ks) = f k + sum_keys f ks

-- `keys` lists what a heap holds, in no particular order. `top_pop` is `top` and then `pop`, and none on
-- an empty heap; any of the keys that come first may be the top one.
pub record PriorityQueue (H : Type 0) : Type 0 where
  pub new_heap : H
  pub push : HeapKey → H → H
  pub top_pop : H → Option (HeapKey × H)
  pub keys : H → List HeapKey
  pub keys-new_heap : keys new_heap ≡ []
  pub keys-push :
      (f : HeapKey → ℕ) (k : HeapKey) (h : H)
      → sum_keys f (keys (push k h)) ≡ f k + sum_keys f (keys h)
  pub top_pop-none : (h : H) → top_pop h ≡ none → keys h ≡ []
  pub top_pop-some :
      (f : HeapKey → ℕ) (k : HeapKey) (h h' : H)
      → top_pop h ≡ some (k, h')
      → sum_keys f (keys h) ≡ f k + sum_keys f (keys h')
  pub top_pop-first :
      (k : HeapKey) (h h' : H)
      → top_pop h ≡ some (k, h')
      → All (λ j. k.ts_recv ≤ℤ j.ts_recv) (keys h')

-- The local variables of `merge_impl`, with the queues.
pub record State (H : Type 0) : Type 0 where
  pub buf : ℕ → MarketDataEvent
  pub file_queues : ℕ → Events
  pub heap : H

abbrev pub write : {A : Type 0} → ℕ → A → (ℕ → A) → ℕ → A
write i v f j = if i == j then v else f j

abbrev pub left_in : ℕ → (ℕ → Events) → ℕ
left_in zero queues = 0
left_in (suc n) queues = length (queues n) + left_in n queues

module _ {H : Type 0} ⦃pq : PriorityQueue H⦄ where
  -- The `pop` of queue `i` with its callback, in both loops.
  unfoldable pub pop_next : ℕ → Events → State H → State H
  pop_next i [] st = st
  pop_next i (e ∷ q) st = record {
    buf = write i e st.buf;
    file_queues = write i q st.file_queues;
    heap = pq.push (record { ts_recv = e.ts_recv; file_idx = i }) st.heap;
  }

  -- The first loop, for the queues below `n`.
  unfoldable pub fill : ℕ → State H → State H
  unfolding pop_next
  fill zero st = st
  fill (suc n) st = let st' = fill n st in pop_next n (st'.file_queues n) st'

  -- The second loop, with a bound on its turns.
  unfoldable pub drain_heap : ℕ → State H → Events
  unfolding pop_next
  drain_heap zero st = []
  drain_heap (suc n) st = elim (pq.top_pop st.heap) [
    | none ↦ []
    | some (top, h) ↦
        st.buf top.file_idx
        ∷ drain_heap n
            (pop_next top.file_idx (st.file_queues top.file_idx) (record st { heap = h }))
  ]

  -- The local variables when they have been declared.
  abbrev pub start : (ℕ → Events) → State H
  start queues = record { buf = λ i. default_event; file_queues = queues; heap = pq.new_heap }

-- `merge_impl` on `N` queues, with a turn for each event.
unfoldable pub merge_impl : {H : Type 0} → PriorityQueue H → ℕ → (ℕ → Events) → Events
merge_impl pq N queues =
    drain_heap ⦃pq = pq⦄ (left_in N queues) (fill ⦃pq = pq⦄ N (start ⦃pq = pq⦄ queues))
