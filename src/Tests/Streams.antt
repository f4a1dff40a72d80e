-- ===== src/Tests/Streams.antt =====
-- Routers, mergers, flags and the log on small inputs: src/order_book/SimpleOrderBookRouter.hpp,
-- src/ingestion/HierarchyMerger.hpp, src/common/MarketDataEvent.hpp and
-- src/order_book/BookAnomalyLog.cpp.
use back_tester.Prelude.{◌<◌, ℕ, suc, zero, ◌≡◌, refl, [], ◌∷◌, arith}
use back_tester.Event.{Side, Action, MarketDataEvent}
use back_tester.FlatMerger.{merge_impl}
use back_tester.FlatMerger.Heap.{sum_queues}
use back_tester.FlatMerger.Complete.{merge_impl-sum}
use back_tester.FlatMerger.Ordered.{merge_impl-IsSorted}
use back_tester.FlatMerger.ListHeap.{list_heap}
use back_tester.HierarchyMerger.{Events, run_impl}
use back_tester.HierarchyMerger.Sorted.{IsSorted, sum}
use back_tester.HierarchyMerger.Rounds.{sum_all, run_impl-sum, run_impl-IsSorted}
use back_tester.LimitOrderBook.{Book, empty_book}
use back_tester.LimitOrderBook.LogFree.{limit_order_book}
use back_tester.SimpleOrderBookRouter.{empty_router, book_of, apply}
use back_tester.SimpleOrderBookRouter.Routing.{
  run, replay, book_of-run, anonymous_event-changes_nothing,
}
use back_tester.Tests.{event, stream, quiet, bid_5, bid_3, ask_4}

-- A `Clear` of instrument 7, which names no order.
abbrev clear_7 : MarketDataEvent
clear_7 = event Action.clear 0 Side.none 0 0

book_of-run_example :
    book_of {B = Book} 7 (run stream empty_router quiet).0
    ≡ replay 7 stream (λ j. 0) empty_book quiet
book_of-run_example = book_of-run 7 stream quiet quiet

anonymous_event-changes_nothing_example :
    book_of {B = Book} 7 (apply clear_7 (run stream empty_router quiet).0 quiet).0
    ≡ book_of {B = Book} 7 (run stream empty_router quiet).0
anonymous_event-changes_nothing_example =
    anonymous_event-changes_nothing 7 clear_7 stream quiet quiet refl (omega arith)

-- Two files: the first has two events, the second one.
abbrev two_files : ℕ → Events
two_files zero = bid_5 ∷ ask_4 ∷ []
two_files (suc i) = bid_3 ∷ []

merge_impl-sum_example :
    sum (λ e. e.size) (merge_impl list_heap 2 two_files) ≡ sum_queues (λ e. e.size) 2 two_files
merge_impl-sum_example = merge_impl-sum list_heap (λ e. e.size) 2 two_files

two_files-IsSorted : (j : ℕ) → j < 2 → IsSorted (two_files j)
two_files-IsSorted zero lt = ((omega arith, tt), (tt, tt))
two_files-IsSorted (suc j) lt = (tt, tt)

merge_impl-IsSorted_example : IsSorted (merge_impl list_heap 2 two_files)
merge_impl-IsSorted_example = merge_impl-IsSorted list_heap 2 two_files two_files-IsSorted

run_impl-sum_example :
    sum (λ e. e.size) (run_impl ((bid_5 ∷ []) ∷ (ask_4 ∷ []) ∷ (bid_3 ∷ []) ∷ []))
    ≡ sum_all (λ e. e.size) ((bid_5 ∷ []) ∷ (ask_4 ∷ []) ∷ (bid_3 ∷ []) ∷ [])
run_impl-sum_example = run_impl-sum (λ e. e.size) ((bid_5 ∷ []) ∷ (ask_4 ∷ []) ∷ (bid_3 ∷ []) ∷ [])

run_impl-IsSorted_example : IsSorted (run_impl ((bid_5 ∷ []) ∷ (ask_4 ∷ []) ∷ (bid_3 ∷ []) ∷ []))
run_impl-IsSorted_example =
    run_impl-IsSorted ((bid_5 ∷ []) ∷ (ask_4 ∷ []) ∷ (bid_3 ∷ []) ∷ [])
      ((tt, tt), ((tt, tt), ((tt, tt), tt)))
