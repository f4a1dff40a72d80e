-- ===== src/Main/Outcome.antt =====
-- What the program of src/main/main.cpp comes to when the threads of its files can read them.
use back_tester.Prelude.{
  ℕ, zero, suc, ◌+◌, ◌*◌, ◌/◌, ◌^◌, ◌<◌, ◌≡◌, refl, sym, ap, ap₂, subst, ◌∙◌, some, List, [], ◌∷◌,
  inr, map, length, get_or, pos, ltb_ℤ, ◌≤ℤ◌, All, arith,
}
use back_tester.Event.{MarketDataEvent}
use back_tester.AnomalyLog.{BookAnomalyLog}
use back_tester.BatchPusher.{batch_size}
use back_tester.BatchPusher.Delivery.{take, inputs-alone}
use back_tester.BookOps.{BookOps}
use back_tester.OrderBook.{Queries}
use back_tester.SimpleOrderBookRouter.{empty_router}
use back_tester.SimpleOrderBookRouter.Routing
use back_tester.JsonNative.Scan.{Text}
use back_tester.Args.{FileSystem, parse_args}
use back_tester.Feather.{Doubles, FeatherFile}
use back_tester.HierarchyMerger.{Events}
use back_tester.HierarchyMerger.Sorted.{IsSorted, sum}
use back_tester.HierarchyMerger.Rounds.{sum_all}
use back_tester.FlatMerger.{PriorityQueue}
use back_tester.FlatMerger.Heap.{sum_queues}
use back_tester.FlatMerger.Complete.{merge_impl-sum}
use back_tester.FlatMerger.Ordered.{merge_impl-IsSorted}
use back_tester.EventSink.{Sink, Report, new_sink, dispatch}
use back_tester.EventSink.Counts.{one_if, counted, dispatch_counts}
use back_tester.Main.{
  filename_ext, Exit, ingest_all, file_queues, merged_queue, run_threads, with_args, main,
}

-- The events of a file that fill whole batches.
abbrev pub delivered : Events → Events
delivered es = take (batch_size * (length es / batch_size)) es

-- 1 for an event with a time of receipt.
abbrev pub stamped : MarketDataEvent → ℕ
stamped e = one_if (ltb_ℤ (pos 0) e.ts_recv)

All-take : (P : MarketDataEvent → Type 0) (n : ℕ) (es : Events) → All P es → All P (take n es)
unfolding take
All-take P zero es h = tt
All-take P (suc n) [] h = tt
All-take P (suc n) (e ∷ es) h = (h.0, All-take P n es h.1)

IsSorted-take : (n : ℕ) (es : Events) → IsSorted es → IsSorted (take n es)
unfolding take
IsSorted-take zero es s = tt
IsSorted-take (suc n) [] s = tt
IsSorted-take (suc n) (e ∷ es) s =
    (All-take (λ f. e.ts_recv ≤ℤ f.ts_recv) n es s.0, IsSorted-take n es s.1)

delivered-IsSorted : (files : List Events) → All IsSorted files → All IsSorted (map delivered files)
delivered-IsSorted [] s = tt
delivered-IsSorted (es ∷ files) s =
    (IsSorted-take (batch_size * (length es / batch_size)) es s.0, delivered-IsSorted files s.1)

file_queues-delivered : (files : List Events) → file_queues files ≡ map delivered files
unfolding file_queues
file_queues-delivered [] = refl
file_queues-delivered (es ∷ files) =
    ap₂ (λ q qs. q ∷ qs) (inputs-alone es) (file_queues-delivered files)

get_or-IsSorted :
    (qs : List Events) → All IsSorted qs → (j : ℕ) → j < length qs → IsSorted (get_or qs j [])
get_or-IsSorted [] s j h = absurd (omega arith)
get_or-IsSorted (q ∷ qs) s zero h = s.0
get_or-IsSorted (q ∷ qs) s (suc j) h = get_or-IsSorted qs s.1 j (omega arith)

sum_queues-first :
    (f : MarketDataEvent → ℕ) (n : ℕ) (queues : ℕ → Events)
    → sum_queues f (suc n) queues ≡ sum f (queues 0) + sum_queues f n (λ i. queues (suc i))
sum_queues-first f zero queues = refl
sum_queues-first f (suc n) queues = omega (arith, sum_queues-first f n queues)

sum_queues-list :
    (f : MarketDataEvent → ℕ) (qs : List Events)
    → sum_queues f (length qs) (λ i. get_or qs i []) ≡ sum_all f qs
sum_queues-list f [] = refl
sum_queues-list f (q ∷ qs) =
    sum_queues-first f (length qs) (λ i. get_or (q ∷ qs) i [])
    ∙ ap (λ (k : ℕ). sum f q + k) (sum_queues-list f qs)

counted-sum : (es : Events) → counted es ≡ sum stamped es
counted-sum [] = refl
counted-sum (e ∷ es) = ap (λ (k : ℕ). stamped e + k) (counted-sum es)

module _ {H : Type 0} (pq : PriorityQueue H) (files : List Events) where
  merged_queue-sum :
      (f : MarketDataEvent → ℕ) → sum f (merged_queue pq files) ≡ sum_all f (map delivered files)
  unfolding merged_queue
  merged_queue-sum f =
      let queues = file_queues files in
      merge_impl-sum pq f (length queues) (λ i. get_or queues i [])
      ∙ sum_queues-list f queues
      ∙ ap (sum_all f) (file_queues-delivered files)

  merged_queue-IsSorted : All IsSorted files → IsSorted (merged_queue pq files)
  unfolding merged_queue
  merged_queue-IsSorted s =
      let queues = file_queues files in
      merge_impl-IsSorted pq (length queues) (λ i. get_or queues i [])
        (get_or-IsSorted queues
          (subst (All IsSorted) (sym (file_queues-delivered files)) (delivered-IsSorted files s)))

module _ {B : Type 0} ⦃ops : BookOps B⦄ ⦃queries : Queries B⦄ where
  -- The router has applied `merged`, which is in order and holds what the files deliver, each event as
  -- often as they do, and the report counts the events with a time of receipt.
  pub record IsOutcome (files : List Events) (l : BookAnomalyLog) (s : Sink B × Report)
      : Type 0 where
    pub merged : Events
    pub ordered : IsSorted merged
    pub complete : (f : MarketDataEvent → ℕ) → sum f merged ≡ sum_all f (map delivered files)
    pub applied : s.0.order_book_router ≡ (Routing.run merged empty_router l).0
    pub messages : s.1.messages ≡ sum_all stamped (map delivered files)

  -- If the arguments name data files, the threads can read them, each file is ordered by `ts_recv` and
  -- fewer than 2 ^ 64 of the delivered events have a time of receipt, then the program ends with 0,
  -- having applied the events of the whole batches of all files in one ordered sequence, and reports
  -- how many of them have a time of receipt.
  pub main-IsOutcome :
      (d : Doubles) (fs : FileSystem) (file_of : Text → FeatherFile d) {H : Type 0}
      (pq : PriorityQueue H) (args data_files : List Text) (files : List Events)
      (l : BookAnomalyLog)
      → parse_args fs args filename_ext ≡ inr data_files
      → ingest_all d fs file_of data_files ≡ some files
      → All IsSorted files
      → sum_all stamped (map delivered files) < 2 ^ 64
      → (s : Sink B × Report) × (main d fs file_of {B = B} pq args l ≡ Exit.finished s)
        × IsOutcome files l s
  unfolding main
  main-IsOutcome d fs file_of pq args data_files files l named read s small =
      let merged = merged_queue pq files in
      let total = counted-sum merged ∙ merged_queue-sum pq files stamped in
      let counts = dispatch_counts {B = B} merged l (omega (arith, total, small)) in
      (
        dispatch {B = B} merged (new_sink l),
        ap (λ a. with_args d fs file_of {B = B} pq a l) named
            ∙ ap (λ f. run_threads d fs file_of {B = B} pq f l) read,
        record {
          merged = merged;
          ordered = merged_queue-IsSorted pq files s;
          complete = merged_queue-sum pq files;
          applied = counts.3;
          messages = counts.0 ∙ total;
        },
      )
