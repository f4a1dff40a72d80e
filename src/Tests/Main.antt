-- ===== src/Tests/Main.antt =====
-- The whole program (src/main/main.cpp) on one Feather file of 300 rows, of which one batch of 256 gets
-- through.
use back_tester.Prelude.{
  ℕ, zero, suc, ◌≡◌, refl, false, true, some, inr, List, [], ◌∷◌, ◌++◌, map, pos, ◌≤ℤ◌, All, arith,
}
use back_tester.JsonNative.Scan.{Text}
use back_tester.JsonNative.File.{ends_with}
use back_tester.JsonNative.Print.{codes}
use back_tester.Args.{FileSystem, parse_args}
use back_tester.Feather.{Array, Batch, FeatherFile, row_event, rows_from, parse_inner}
use back_tester.HierarchyMerger.{Events}
use back_tester.HierarchyMerger.Sorted.{IsSorted}
use back_tester.HierarchyMerger.Rounds.{sum_all}
use back_tester.FlatMerger.ListHeap.{list_heap}
use back_tester.BatchPusher.Delivery.{take}
use back_tester.LimitOrderBook.{Book}
use back_tester.LimitOrderBook.LogFree.{limit_order_book, limit_queries}
use back_tester.EventSink.{Sink, Report}
use back_tester.Main.{filename_ext, Exit, ingest_all, main}
use back_tester.Main.Outcome.{delivered, stamped, IsOutcome, main-IsOutcome}
use back_tester.Tests.{quiet}
use back_tester.Tests.Program.{integers}

abbrev column : {A : Type 0} → A → Array A
column v = record { is_null = λ row. false; value = λ row. v }

-- Rows that all have the same values.
abbrev rows : Batch integers
rows = record {
  num_rows = 300;
  ts_recv = column (pos 5);
  ts_event = column (pos 4);
  rtype = column (pos 160);
  publisher_id = column (pos 1);
  instrument_id = column (pos 7);
  action = column (codes "A");
  side = column (codes "B");
  price = column (pos 100);
  size = column (pos 1);
  channel_id = column (pos 0);
  order_id = column (pos 9);
  flags = column (pos 0);
  ts_in_delta = column (pos 0);
  sequence = column (pos 1);
}

abbrev one_file : FileSystem
one_file = record { is_directory = λ p. false; is_regular_file = λ p. true; entries = λ p. [] }

abbrev file_of : Text → FeatherFile integers
file_of path = record {
  opens = true;
  reader_opens = true;
  reads_table = true;
  batches = some rows ∷ [];
}

abbrev args : List Text
args = codes "run" ∷ codes "a.mbo.json.feather" ∷ []

abbrev files : List Events
files = (rows_from integers 300 0 rows ++ []) ∷ []

args_named : parse_args one_file args filename_ext ≡ inr (codes "a.mbo.json.feather" ∷ [])
unfolding parse_args ends_with
args_named = refl

file_read : ingest_all integers one_file file_of (codes "a.mbo.json.feather" ∷ []) ≡ some files
unfolding ingest_all parse_inner ends_with
file_read = refl

rows_from-later : (n k : ℕ) → All (λ e. pos 5 ≤ℤ e.ts_recv) (rows_from integers n k rows ++ [])
unfolding rows_from row_event
rows_from-later zero k = tt
rows_from-later (suc n) k = (omega arith, rows_from-later n (suc k))

rows_from-IsSorted : (n k : ℕ) → IsSorted (rows_from integers n k rows ++ [])
unfolding rows_from row_event
rows_from-IsSorted zero k = tt
rows_from-IsSorted (suc n) k = (rows_from-later n (suc k), rows_from-IsSorted n (suc k))

one_batch : sum_all stamped (map delivered files) ≡ 256
unfolding rows_from row_event take
one_batch = refl

main-IsOutcome_example :
    (s : Sink Book × Report) × (main integers one_file file_of {B = Book} list_heap args quiet
      ≡ Exit.finished s)
    × IsOutcome files quiet s
main-IsOutcome_example =
    main-IsOutcome integers one_file file_of list_heap args (codes "a.mbo.json.feather" ∷ []) files
      quiet args_named file_read (rows_from-IsSorted 300 0, tt) (omega (arith, one_batch))
