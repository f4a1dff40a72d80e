-- ===== src/BookOps.antt =====
-- What src/order_book/SimpleOrderBookRouter.hpp asks of its `BookType`: a default constructor and
-- `apply` of src/order_book/OrderBook.hpp. A book may write to the log, but does not read it.
use back_tester.Prelude.{◌≡◌}
use back_tester.Event.{MarketDataEvent}
use back_tester.AnomalyLog.{BookAnomalyLog}

pub record BookOps (B : Type 0) : Type 0 where
  pub fresh : B
  pub apply_book : MarketDataEvent → B → BookAnomalyLog → B × BookAnomalyLog
  pub apply_book-log :
      (e : MarketDataEvent) (b : B) (l l' : BookAnomalyLog)
      → (apply_book e b l).0 ≡ (apply_book e b l').0
