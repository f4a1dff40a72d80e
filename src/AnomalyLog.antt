-- ===== src/AnomalyLog.antt =====
-- src/order_book/BookAnomalyLog.hpp and BookAnomalyLog.cpp: the log of what the books and the
-- routers find wrong in the stream. The process-wide instance is passed along as a value; its mutex
-- makes each call atomic. A stream is absent where its file could not be opened.
pub mod Laws
use Prim.Native.String.{String}
use back_tester.Prelude.{ℕ, ◌+◌, ◌%◌, ◌^◌, Option, none, some, List, [], ◌∷◌, ◌++◌, ℤ}
use back_tester.Event.{MarketDataEvent, Action, Side}

pub data BookAnomaly : Type 0 where
  unknown_cancel unknown_modify_ignored unknown_modify_as_add duplicate_add_replaced : BookAnomaly

pub data RouterAnomaly : Type 0 where
  unresolved_instrument : RouterAnomaly

-- What `write_line` prints, field by field.
pub record Line : Type 0 where
  pub component : String
  pub anomaly : String
  pub order_id : ℕ
  pub instrument_id : ℕ
  pub action : Action
  pub side : Side
  pub price : ℤ
  pub size : ℕ
  pub ts_event : ℤ

-- An output stream: what stands in its buffer, and what has reached the file.
pub record Stream : Type 0 where
  pub buffered : List Line
  pub written : List Line

-- `book_counts_[4]` is a field for each enumerator, in their order.
pub record BookAnomalyLog : Type 0 where
  pub book_stream : Option Stream
  pub router_stream : Option Stream
  pub unknown_cancels : ℕ
  pub unknown_modifies_ignored : ℕ
  pub unknown_modifies_as_add : ℕ
  pub duplicate_adds_replaced : ℕ
  pub unresolved_instruments : ℕ

unfoldable pub book_anomaly_name : BookAnomaly → String
book_anomaly_name BookAnomaly.unknown_cancel = "unknown_cancel"
book_anomaly_name BookAnomaly.unknown_modify_ignored = "unknown_modify_ignored"
book_anomaly_name BookAnomaly.unknown_modify_as_add = "unknown_modify_as_add"
book_anomaly_name BookAnomaly.duplicate_add_replaced = "duplicate_add_replaced"

unfoldable pub router_anomaly_name : RouterAnomaly → String
router_anomaly_name RouterAnomaly.unresolved_instrument = "unresolved_instrument"

abbrev pub line_of : String → String → MarketDataEvent → Line
line_of component anomaly e = record {
  component = component;
  anomaly = anomaly;
  order_id = e.order_id;
  instrument_id = e.instrument_id;
  action = e.action;
  side = e.side;
  price = e.price;
  size = e.size;
  ts_event = e.ts_event;
}

unfoldable pub write_line : String → String → MarketDataEvent → Stream → Stream
write_line component anomaly e s = record s {
  buffered = s.buffered ++ (line_of component anomaly e ∷ []);
}

-- `ostream::flush`
abbrev pub flush_stream : Stream → Stream
flush_stream s = record { buffered = []; written = s.written ++ s.buffered }

-- A call through a stream pointer that may be null.
abbrev pub on_stream : (Stream → Stream) → Option Stream → Option Stream
on_stream f none = none
on_stream f (some s) = some (f s)

unfoldable pub flush : BookAnomalyLog → BookAnomalyLog
flush l = record l {
  book_stream = on_stream flush_stream l.book_stream;
  router_stream = on_stream flush_stream l.router_stream;
}

-- `++` on a `uint64_t`
abbrev pub next_count : ℕ → ℕ
next_count n = (n + 1) % 2 ^ 64

unfoldable pub count_book : BookAnomaly → BookAnomalyLog → BookAnomalyLog
count_book BookAnomaly.unknown_cancel l = record l {
  unknown_cancels = next_count l.unknown_cancels;
}
count_book BookAnomaly.unknown_modify_ignored l = record l {
  unknown_modifies_ignored = next_count l.unknown_modifies_ignored;
}
count_book BookAnomaly.unknown_modify_as_add l = record l {
  unknown_modifies_as_add = next_count l.unknown_modifies_as_add;
}
count_book BookAnomaly.duplicate_add_replaced l = record l {
  duplicate_adds_replaced = next_count l.duplicate_adds_replaced;
}

unfoldable pub log_book : BookAnomaly → MarketDataEvent → String → BookAnomalyLog → BookAnomalyLog
unfolding count_book flush write_line book_anomaly_name
log_book kind e component l =
    let counted = count_book kind l in
    flush (record counted {
      book_stream = on_stream (write_line component (book_anomaly_name kind) e) counted.book_stream;
    })

unfoldable pub log_router : RouterAnomaly → MarketDataEvent → BookAnomalyLog → BookAnomalyLog
unfolding flush write_line router_anomaly_name
log_router kind e l = flush (record l {
  unresolved_instruments = next_count l.unresolved_instruments;
  router_stream =
      on_stream (write_line "OrderBookRouter" (router_anomaly_name kind) e) l.router_stream;
})

unfoldable pub book_count : BookAnomaly → BookAnomalyLog → ℕ
book_count BookAnomaly.unknown_cancel l = l.unknown_cancels
book_count BookAnomaly.unknown_modify_ignored l = l.unknown_modifies_ignored
book_count BookAnomaly.unknown_modify_as_add l = l.unknown_modifies_as_add
book_count BookAnomaly.duplicate_add_replaced l = l.duplicate_adds_replaced

unfoldable pub router_count : RouterAnomaly → BookAnomalyLog → ℕ
router_count RouterAnomaly.unresolved_instrument l = l.unresolved_instruments

-- The numbers of `write_summary`, each behind the label that it is printed with.
unfoldable pub write_summary : BookAnomalyLog → List (String × ℕ)
write_summary l =
    ("unknown_cancel", l.unknown_cancels)
    ∷ ("unknown_modify_ignored", l.unknown_modifies_ignored)
    ∷ ("unknown_modify_as_add", l.unknown_modifies_as_add)
    ∷ ("duplicate_add_replaced", l.duplicate_adds_replaced)
    ∷ ("unresolved_instrument", l.unresolved_instruments)
    ∷ []
