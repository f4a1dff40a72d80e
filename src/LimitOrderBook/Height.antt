-- ===== src/LimitOrderBook/Height.antt =====
-- How high the trees of src/order_book/LimitOrderBook.cpp become.
use back_tester.Prelude.{List}
use back_tester.Event.{MarketDataEvent}
use back_tester.AnomalyLog.{BookAnomalyLog}
use back_tester.PriceLevel.Height.{IsShallow, IsAvl-IsShallow}
use back_tester.LimitOrderBook.{empty_book}
use back_tester.LimitOrderBook.Consistent.{run, run_empty-IsConsistent}

-- After any events from the empty book, the height field at the root of each side's tree is the length
-- `d` of its longest path, and the tree has at least 2 ^ ((d + 1) / 2) - 1 levels.
pub height-run :
    (es : List MarketDataEvent) (l : BookAnomalyLog)
    → IsShallow (run es empty_book l).0.bid.tree × IsShallow (run es empty_book l).0.ask.tree
height-run es l =
    let c = run_empty-IsConsistent es l in
    let b = (run es empty_book l).0 in
    (
      IsAvl-IsShallow b.bid.tree c.bids_ordered.balanced,
      IsAvl-IsShallow b.ask.tree c.asks_ordered.balanced,
    )
