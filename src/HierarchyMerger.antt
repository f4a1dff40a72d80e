-- ===== src/HierarchyMerger.antt =====
-- src/ingestion/HierarchyMerger.hpp. A queue that a producer fills and closes is the list of its
-- events: `pop` gives them in their order, blocks while more may come, and fails at the end. Each
-- worker reads and writes its own queues only, so what it writes is a function of what it reads, and
-- threads and blocking are not modelled. `Merger` passes `run` on to `run_impl`.
pub mod Sorted
pub mod Rounds
use back_tester.Prelude.{
  ℕ, zero, suc, ◌+◌, ◌/◌, Option, none, some, List, [], ◌∷◌, length, leb, ltb_ℤ, if◌then◌else◌,
}
use back_tester.Event.{MarketDataEvent}

abbrev pub Events : Type 0
Events = List MarketDataEvent

-- `pop_one` into an empty option: what it then holds, and the rest of the queue.
abbrev pub pop_one : Events → Option MarketDataEvent × Events
pop_one [] = (none, [])
pop_one (e ∷ q) = (some e, q)

-- The `while` of `merge_two`: what it pushes, with `ea` and `eb` in hand.
unfoldable pub merge_loop :
    ℕ → Option MarketDataEvent → Option MarketDataEvent → Events → Events → Events
merge_loop zero ea eb a b = []
merge_loop (suc n) none none a b = []
merge_loop (suc n) (some x) (some y) a b =
    let from_b = merge_loop n (some x) (pop_one b).0 a (pop_one b).1 in
    let from_a = merge_loop n (pop_one a).0 (some y) (pop_one a).1 b in
    if ltb_ℤ y.ts_recv x.ts_recv then y ∷ from_b else x ∷ from_a
merge_loop (suc n) (some x) none a b = x ∷ merge_loop n (pop_one a).0 none (pop_one a).1 b
merge_loop (suc n) none (some y) a b = y ∷ merge_loop n none (pop_one b).0 a (pop_one b).1

-- `merge_two`, with a turn for each event of the two queues.
abbrev pub merge_two : Events → Events → Events
merge_two a b =
    merge_loop (length a + length b) (pop_one a).0 (pop_one b).0 (pop_one a).1 (pop_one b).1

-- `drain`, with `e` in hand.
abbrev pub drain : Events → Events
drain [] = []
drain (e ∷ q) = e ∷ drain q

-- One turn of the outer loop of `run_impl`: neighbours are paired, and an odd queue is kept.
unfoldable pub pair_up : List Events → List Events
pair_up [] = []
pair_up (q ∷ []) = q ∷ []
pair_up (q0 ∷ q1 ∷ cur) = merge_two q0 q1 ∷ pair_up cur

-- The outer loop, with a bound on its turns.
unfoldable pub rounds : ℕ → List Events → List Events
rounds zero cur = cur
rounds (suc n) cur = let rest = rounds n (pair_up cur) in if leb (length cur) 2 then cur else rest

-- The final merge.
abbrev pub final_merge : List Events → Events
final_merge [] = []
final_merge (q ∷ []) = drain q
final_merge (q0 ∷ q1 ∷ cur) = merge_two q0 q1

-- `run_impl`: what it pushes to the output.
abbrev pub run_impl : List Events → Events
run_impl cur = final_merge (rounds (length cur) cur)
