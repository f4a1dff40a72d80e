-- ===== src/AnomalyLog/Laws.antt =====
-- What a call of src/order_book/BookAnomalyLog.cpp changes in the log.
use Prim.Native.String.{String}
use back_tester.Prelude.{
  ◌≡◌, refl, ap, ◌∙◌, Bool, true, false, Option, none, some, [], ◌∷◌, ◌++◌, if◌then◌else◌, arith,
}
use back_tester.Event.{MarketDataEvent}
use back_tester.AnomalyLog.{
  BookAnomaly, Line, Stream, BookAnomalyLog, write_line, line_of, book_anomaly_name, log_book,
  count_book, book_count, router_count, RouterAnomaly, next_count, on_stream, flush_stream,
}

-- Equality of enumerators, as `static_cast<std::size_t>` compares their indices.
abbrev pub same_anomaly : BookAnomaly → BookAnomaly → Bool
same_anomaly BookAnomaly.unknown_cancel BookAnomaly.unknown_cancel = true
same_anomaly BookAnomaly.unknown_modify_ignored BookAnomaly.unknown_modify_ignored = true
same_anomaly BookAnomaly.unknown_modify_as_add BookAnomaly.unknown_modify_as_add = true
same_anomaly BookAnomaly.duplicate_add_replaced BookAnomaly.duplicate_add_replaced = true
same_anomaly _ _ = false

counts-log_book :
    (kind other : BookAnomaly) (e : MarketDataEvent) (c : String) (l : BookAnomalyLog)
    → book_count other (log_book kind e c l)
      ≡ (if same_anomaly kind other then next_count (book_count other l) else book_count other l)
unfolding log_book book_count
counts-log_book BookAnomaly.unknown_cancel BookAnomaly.unknown_cancel e c l = refl
counts-log_book kind other e c l = ground arith

count_book_frame :
    (kind : BookAnomaly) (l : BookAnomalyLog)
    → ((count_book kind l).book_stream ≡ l.book_stream)
      × ((count_book kind l).router_stream ≡ l.router_stream)
      × ((count_book kind l).unresolved_instruments ≡ l.unresolved_instruments)
unfolding count_book
count_book_frame BookAnomaly.unknown_cancel l = (refl, refl, refl)
count_book_frame kind l = (refl, refl, refl)

-- An open stream after a line was logged to it: nothing waits in the buffer, and the file has all
-- that was buffered before and then the line.
abbrev pub with_line : Line → Stream → Stream
with_line line s = record { buffered = []; written = s.written ++ (s.buffered ++ (line ∷ [])) }

with_line-eq :
    (c n : String) (e : MarketDataEvent) (o : Option Stream)
    → on_stream flush_stream (on_stream (write_line c n e) o)
      ≡ on_stream (with_line (line_of c n e)) o
unfolding write_line
with_line-eq c n e none = refl
with_line-eq c n e (some s) = refl

-- Logging a book anomaly raises the counter of its kind by one (modulo 2 ^ 64) and no other counter
-- of the five, appends one line to the book file if that is open and flushes it, and writes no new
-- line to the router file, whose buffer it flushes too.
pub log_book_effect :
    (kind other : BookAnomaly) (r : RouterAnomaly) (e : MarketDataEvent) (c : String)
    (l : BookAnomalyLog)
    → (book_count other (log_book kind e c l)
        ≡ (if same_anomaly kind other then next_count (book_count other l) else book_count other l))
      × (router_count r (log_book kind e c l) ≡ router_count r l)
      × ((log_book kind e c l).book_stream
          ≡ on_stream (with_line (line_of c (book_anomaly_name kind) e)) l.book_stream)
      × ((log_book kind e c l).router_stream ≡ on_stream flush_stream l.router_stream)
unfolding log_book router_count
log_book_effect kind other RouterAnomaly.unresolved_instrument e c l =
    let (books, routers, unresolved) = count_book_frame kind l in
    (
      counts-log_book kind other e c l,
      unresolved,
      ap (λ s. on_stream flush_stream (on_stream (write_line c (book_anomaly_name kind) e) s)) books
          ∙ with_line-eq c (book_anomaly_name kind) e l.book_stream,
      ap (on_stream flush_stream) routers,
    )
