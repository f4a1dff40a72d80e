-- ===== src/Tests/Program.antt =====
-- The ends of the program: the command line (src/main/args.cpp), a Feather file
-- (src/ingestion/FeatherDataParser.cpp) and the dispatcher (src/main/main.cpp).
use back_tester.Prelude.{
  ℕ, ◌/◌, ◌^◌, ◌<◌, ◌≡◌, refl, true, false, inr, none, List, [], ◌∷◌, ◌++◌, length, ℤ, pos,
  pos_part, All, arith,
}
use back_tester.Event.{Side, Action, MarketDataEvent}
use back_tester.JsonNative.Scan.{Text}
use back_tester.JsonNative.File.{ends_with}
use back_tester.JsonNative.Print.{codes}
use back_tester.Args.{FileSystem, parse_args}
use back_tester.Args.Found.{IsFound, parse_args-IsFound}
use back_tester.Feather.{Doubles, parse_inner}
use back_tester.Feather.RoundTrip.{IsWritable, batches_of, parse_inner-batches_of}
use back_tester.LimitOrderBook.{Book}
use back_tester.LimitOrderBook.LogFree.{limit_order_book, limit_queries}
use back_tester.SimpleOrderBookRouter.{empty_router}
use back_tester.SimpleOrderBookRouter.Routing
use back_tester.EventSink.{new_sink, dispatch, report_after}
use back_tester.EventSink.Counts.{counted, dispatch_counts}
use back_tester.Tests.{event, stream, quiet, bid_5, bid_3, ask_4}

-- A directory with one data file and one other file.
abbrev folder : FileSystem
folder = record {
  is_directory = λ p. ends_with p (codes "data");
  is_regular_file = λ p. ends_with p (codes "json");
  entries = λ p. codes "a.mbo.json" ∷ codes "b.json" ∷ [];
}

found_one :
    parse_args folder (codes "run" ∷ codes "data" ∷ []) (codes ".mbo.json")
    ≡ inr (codes "a.mbo.json" ∷ [])
unfolding parse_args ends_with
found_one = refl

-- A path that is not there gives no file and no error.
found_none : parse_args folder (codes "run" ∷ codes "dat" ∷ []) (codes ".mbo.json") ≡ inr []
unfolding parse_args ends_with
found_none = refl

parse_args-IsFound_example :
    (program : Text) × (source : Text) × (codes "run" ∷ codes "data" ∷ [] ≡ program ∷ source ∷ [])
    × IsFound folder (codes ".mbo.json") source (codes "a.mbo.json" ∷ [])
parse_args-IsFound_example =
    parse_args-IsFound folder (codes ".mbo.json") (codes "run" ∷ codes "data" ∷ [])
      (codes "a.mbo.json" ∷ []) found_one

-- Numbers that hold every integer, in the place of `double`.
abbrev pub integers : Doubles
integers = record { Double = ℤ; isnan = λ x. false; to_nanos = λ x. x; to_uint64 = λ x. pos_part x }

abbrev two_batches : List (List MarketDataEvent)
two_batches = (bid_5 ∷ bid_3 ∷ []) ∷ (ask_4 ∷ []) ∷ []

added-IsWritable :
    (id : ℕ) (side : Side) (price size : ℕ)
    → size < 2 ^ 32
    → IsWritable integers (λ p. p) (λ id. pos id) (event Action.add id side price size)
added-IsWritable id side price size h = record {
  rtype_named = tt;
  action_named = tt;
  publisher_id_fits = omega arith;
  instrument_id_fits = omega arith;
  size_fits = h;
  sequence_fits = omega arith;
  channel_id_fits = omega arith;
  flags_fit = omega arith;
  ts_in_delta_fits = omega arith;
  price_is_number = refl;
  price_exact = refl;
  order_id_exact = refl;
}

two_batches-IsWritable : All (All (IsWritable integers (λ p. p) (λ id. pos id))) two_batches
two_batches-IsWritable = (
  (
    added-IsWritable 1 Side.buy 100 5 (omega arith),
    (added-IsWritable 2 Side.buy 101 3 (omega arith), tt),
  ),
  ((added-IsWritable 3 Side.sell 105 4 (omega arith), tt), tt),
)

named : ends_with (codes "a.mbo.json.feather") (codes ".mbo.json.feather") ≡ true
unfolding ends_with
named = refl

parse_inner-batches_of_example :
    parse_inner integers (codes "a.mbo.json.feather") (record {
      opens = true;
      reader_opens = true;
      reads_table = true;
      batches = batches_of integers (λ p. p) (λ id. pos id) two_batches ++ none ∷ [];
    })
    ≡ inr (bid_5 ∷ bid_3 ∷ ask_4 ∷ [])
parse_inner-batches_of_example =
    parse_inner-batches_of integers (λ p. p) (λ id. pos id) (codes "a.mbo.json.feather") two_batches
      [] named two_batches-IsWritable

dispatch_counts_example :
    ((dispatch {B = Book} stream (new_sink quiet)).1.messages ≡ counted stream)
    × (length (dispatch {B = Book} stream (new_sink quiet)).0.print_queue.queue
        ≡ counted stream / report_after)
    × ((dispatch {B = Book} stream (new_sink quiet)).0.print_queue.closed ≡ true)
    × ((dispatch {B = Book} stream (new_sink quiet)).0.order_book_router
        ≡ (Routing.run stream empty_router quiet).0)
dispatch_counts_example = dispatch_counts stream quiet (omega arith)
