-- ===== src/SimpleOrderBookRouter.antt =====
-- src/order_book/SimpleOrderBookRouter.hpp, for any book with the operations of `BookOps`: a book for
-- each instrument, and the instrument of each order. `OrderBookRouter` passes `apply` on to
-- `apply_impl`. The log is passed along.
pub mod Routing
pub mod Printing
use back_tester.Prelude.{
  ℕ, Bool, not, ◌&&◌, ◌==◌, Option, none, some, [], if◌then◌else◌, Dict, nat_key, find, assign,
}
use back_tester.Event.{MarketDataEvent}
use back_tester.AnomalyLog.{RouterAnomaly, BookAnomalyLog, log_router}
use back_tester.BookOps.{BookOps}

pub record Router (B : Type 0) : Type 0 where
  pub order_books : Dict ℕ B
  pub order_to_instrument : Dict ℕ ℕ

abbrev pub empty_router : {B : Type 0} → Router B
empty_router = record { order_books = []; order_to_instrument = [] }

-- `map[key]` as a value: what is there, or the default.
abbrev pub or_default : {A : Type 0} → A → Option A → A
or_default d none = d
or_default d (some v) = v

-- `instrument_id != 0 && order_id != 0`
abbrev pub names_order : MarketDataEvent → Bool
names_order e = not (e.instrument_id == 0) && not (e.order_id == 0)

-- The first statement of `apply_impl`.
unfoldable pub register : MarketDataEvent → Dict ℕ ℕ → Dict ℕ ℕ
register e m = if names_order e then assign e.order_id e.instrument_id m else m

-- `order_to_instrument_[e.order_id]` writes the default where there is nothing.
unfoldable pub touch : ℕ → Dict ℕ ℕ → Dict ℕ ℕ
touch id m = elim (find id m) [ none ↦ assign id 0 m | some i ↦ m ]

abbrev pub instrument_of : ℕ → Dict ℕ ℕ → ℕ
instrument_of id m = or_default 0 (find id m)

module _ {B : Type 0} ⦃ops : BookOps B⦄ where
  abbrev pub book_of : ℕ → Router B → B
  book_of i r = or_default ops.fresh (find i r.order_books)

  -- `apply_impl` from the test of `instr_id` on; the map is as it is then.
  unfoldable pub deliver :
      ℕ → Dict ℕ ℕ → MarketDataEvent → Router B → BookAnomalyLog → Router B × BookAnomalyLog
  deliver instr_id m e r l =
      let (b, l') = ops.apply_book e (book_of instr_id r) l in
      if (instr_id == 0) && not (e.order_id == 0)
      then (
        record { order_books = r.order_books; order_to_instrument = m },
        log_router RouterAnomaly.unresolved_instrument e l,
      )
      else (record { order_books = assign instr_id b r.order_books; order_to_instrument = m }, l')

  unfoldable pub apply : MarketDataEvent → Router B → BookAnomalyLog → Router B × BookAnomalyLog
  unfolding register touch
  apply e r l =
      let m = register e r.order_to_instrument in
      deliver (instrument_of e.order_id m) (touch e.order_id m) e r l
