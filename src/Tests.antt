-- ===== src/Tests.antt =====
-- Runs of the program's parts on small inputs: shared events here, a child for each group of parts.
mod Structures
mod LevelBooks
mod LimitBook
mod Streams
mod Queues
mod Shards
mod Program
mod Main
mod Json
use back_tester.Prelude.{ℕ, Option, none, List, [], ◌∷◌, ℤ, pos}
use back_tester.Event.{Side, Action, MarketDataEvent, default_event}
use back_tester.AnomalyLog.{BookAnomalyLog}

abbrev pub event : Action → ℕ → Side → ℕ → ℕ → MarketDataEvent
event action id side price size = record default_event {
  action = action;
  order_id = id;
  side = side;
  price = pos price;
  size = size;
  instrument_id = 7;
  ts_recv = pos price;
}

abbrev pub quiet : BookAnomalyLog
quiet = record {
  book_stream = none;
  router_stream = none;
  unknown_cancels = 0;
  unknown_modifies_ignored = 0;
  unknown_modifies_as_add = 0;
  duplicate_adds_replaced = 0;
  unresolved_instruments = 0;
}

abbrev pub bid_5 : MarketDataEvent
bid_5 = event Action.add 1 Side.buy 100 5

abbrev pub bid_3 : MarketDataEvent
bid_3 = event Action.add 2 Side.buy 101 3

abbrev pub ask_4 : MarketDataEvent
ask_4 = event Action.add 3 Side.sell 105 4

abbrev pub cut_to_2 : MarketDataEvent
cut_to_2 = event Action.cancel 1 Side.buy 100 2

-- Two bids and an ask, and a cancel that leaves 2 of the first bid.
abbrev pub stream : List MarketDataEvent
stream = bid_5 ∷ bid_3 ∷ ask_4 ∷ cut_to_2 ∷ []
