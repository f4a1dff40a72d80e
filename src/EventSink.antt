-- ===== src/EventSink.antt =====
-- `ProcessMarketDataEvent` and the dispatcher's thread of src/main/main.cpp, in its mode 1, for any book.
-- The thread that prints what is in `print_queue` only takes from it, and what it has taken still
-- stands in the queue here. The clock and the figures that depend on it are left out.
pub mod Counts
use Prim.Native.String.{String}
use back_tester.Prelude.{ℕ, ◌+◌, ◌%◌, ◌^◌, ◌==◌, List, [], ◌∷◌, ◌++◌, pos, ltb_ℤ, if◌then◌else◌}
use back_tester.Event.{MarketDataEvent}
use back_tester.AnomalyLog.{BookAnomalyLog, write_summary, flush}
use back_tester.BlockingQueue.{Queue, new_queue, push_impl, close_impl}
use back_tester.BookOps.{BookOps}
use back_tester.OrderBook.{Piece, Queries}
use back_tester.SimpleOrderBookRouter
use back_tester.SimpleOrderBookRouter.{Router, empty_router}
use back_tester.SimpleOrderBookRouter.Printing.{snapshot_as_string, print_best_bid_ask}

-- `REPORT_AFTER_EACH_N_EVENTS`
abbrev pub report_after : ℕ
report_after = 5000000

pub record Sink (B : Type 0) : Type 0 where
  pub print_queue : Queue (List Piece)
  pub counter : ℕ
  pub order_book_router : Router B
  pub log : BookAnomalyLog

-- What the dispatcher writes: to `stdout`, and to `stderr`.
pub record Report : Type 0 where
  pub messages : ℕ
  pub best_bid_ask : List Piece
  pub anomalies : List (String × ℕ)

abbrev pub new_sink : {B : Type 0} → BookAnomalyLog → Sink B
new_sink l = record {
  print_queue = new_queue;
  counter = 0;
  order_book_router = empty_router;
  log = l;
}

module _ {B : Type 0} ⦃ops : BookOps B⦄ ⦃queries : Queries B⦄ where
  abbrev pub snapshot_text : ℕ → Router B → List Piece
  snapshot_text count r =
      Piece.text "\n=== Snapshot at "
      ∷ Piece.count count
      ∷ Piece.text " events ===\n"
      ∷ (snapshot_as_string 5 r ++ (Piece.text "===============================\n\n" ∷ []))

  -- The part of `operator()` after `apply`.
  unfoldable pub count_event : MarketDataEvent → Sink B → Sink B
  unfolding push_impl snapshot_as_string
  count_event e s =
      let count = (s.counter + 1) % 2 ^ 64 in
      let counted = record s { counter = count } in
      let text = snapshot_text count s.order_book_router in
      if ltb_ℤ (pos 0) e.ts_recv
      then (if count % report_after == 0
          then record counted { print_queue = (push_impl text s.print_queue).1 }
          else counted)
      else s

  -- `operator()`
  unfoldable pub process : MarketDataEvent → Sink B → Sink B
  unfolding count_event
  process e s =
      let (r, l) = SimpleOrderBookRouter.apply e s.order_book_router s.log in
      count_event e (record s { order_book_router = r; log = l })

  -- The loop of the dispatcher over what it pops.
  unfoldable pub process_all : List MarketDataEvent → Sink B → Sink B
  unfolding process
  process_all [] s = s
  process_all (e ∷ es) s = process_all es (process e s)

  -- The rest of the dispatcher.
  unfoldable pub finish : Sink B → Sink B × Report
  unfolding print_best_bid_ask write_summary flush
  finish s = (
    record s { log = flush s.log; print_queue = close_impl s.print_queue },
    record {
      messages = s.counter;
      best_bid_ask = print_best_bid_ask s.order_book_router;
      anomalies = write_summary s.log;
    },
  )

  unfoldable pub dispatch : List MarketDataEvent → Sink B → Sink B × Report
  unfolding process_all finish
  dispatch es s = finish (process_all es s)
