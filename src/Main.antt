-- ===== src/Main.antt =====
-- `main` of src/main/main.cpp. The threads share queues only: the thread of a file fills the file's queue,
-- the merger's thread takes from these and fills `merged_queue`, and the dispatcher takes from that. A
-- queue that is filled and closed is the list of its items, so that the program is a function of its
-- files. The Arrow library, the file system and the heap of the merger are parameters.
pub mod Outcome
use back_tester.Prelude.{ℕ, Option, none, some, List, [], ◌∷◌, ◌⊎◌, inl, inr, length, get_or}
use back_tester.AnomalyLog.{BookAnomalyLog}
use back_tester.BlockingQueue.{new_queue}
use back_tester.BlockingQueue.Fifo.{inputs}
use back_tester.BatchPusher.{producer}
use back_tester.BookOps.{BookOps}
use back_tester.OrderBook.{Queries}
use back_tester.JsonNative.Scan.{Text}
use back_tester.JsonNative.Print.{codes}
use back_tester.Args.{FileSystem, ArgsError, parse_args}
use back_tester.Feather.{Doubles, FeatherFile, FeatherError, parse_inner}
use back_tester.HierarchyMerger.{Events}
use back_tester.FlatMerger.{PriorityQueue, merge_impl}
use back_tester.EventSink.{Sink, Report, new_sink, dispatch}

-- `FeatherDataParser::filename_ext`
abbrev pub filename_ext : Text
filename_ext = codes ".mbo.json.feather"

-- How the program ends: `return 1` after the exception of `parse_args`, `std::terminate` after an
-- exception that leaves a thread, or `return 0` with what the dispatcher leaves and reports.
pub data Exit (B : Type 0) : Type 0 where
  failed : ArgsError → Exit B
  terminated : Exit B
  finished : Sink B × Report → Exit B

-- What each thread gets into its queue.
unfoldable pub file_queues : List Events → List Events
unfolding inputs producer
file_queues [] = []
file_queues (es ∷ rest) = inputs (producer es) new_queue ∷ file_queues rest

-- The output of the merger.
unfoldable pub merged_queue : {H : Type 0} → PriorityQueue H → List Events → Events
unfolding file_queues merge_impl
merged_queue pq files =
    let queues = file_queues files in merge_impl pq (length queues) (λ i. get_or queues i [])

module _ (d : Doubles) (fs : FileSystem) (file_of : Text → FeatherFile d) where
  -- `IngestionPipeline`, whose `ingest` hands the events of the parser to `push_fn`.
  abbrev pub ingest : Text → FeatherError ⊎ Events
  ingest path = parse_inner d path (file_of path)

  abbrev pub with_events : FeatherError ⊎ Events → Option (List Events) → Option (List Events)
  with_events (inl e) rest = none
  with_events (inr es) none = none
  with_events (inr es) (some rest) = some (es ∷ rest)

  -- The events of each data file, or none where the thread of one throws.
  unfoldable pub ingest_all : List Text → Option (List Events)
  unfolding parse_inner
  ingest_all [] = some []
  ingest_all (path ∷ paths) = with_events (ingest path) (ingest_all paths)

  module _ {B : Type 0} ⦃ops : BookOps B⦄ ⦃queries : Queries B⦄ where
    abbrev pub run_threads :
        {H : Type 0} → PriorityQueue H → Option (List Events) → BookAnomalyLog → Exit B
    unfolding merged_queue dispatch
    run_threads pq none l = Exit.terminated
    run_threads pq (some files) l = Exit.finished (dispatch (merged_queue pq files) (new_sink l))

    abbrev pub with_args :
        {H : Type 0} → PriorityQueue H → ArgsError ⊎ List Text → BookAnomalyLog → Exit B
    unfolding ingest_all merged_queue dispatch
    with_args pq (inl e) l = Exit.failed e
    with_args pq (inr data_files) l = run_threads pq (ingest_all data_files) l

    unfoldable pub main : {H : Type 0} → PriorityQueue H → List Text → BookAnomalyLog → Exit B
    unfolding parse_args ingest_all merged_queue dispatch
    main pq args l = with_args pq (parse_args fs args filename_ext) l
