-- ===== src/EventSink/Counts.antt =====
-- What the dispatcher of src/main/main.cpp counts and prints.
use back_tester.Prelude.{
  ℕ, ◌+◌, ◌/◌, ◌%◌, ◌^◌, ◌<◌, ◌==◌, ◌≡◌, refl, sym, ap, ap₂, subst, ◌∙◌, Bool, true, false,
  Bool-cases, if_cases, inl, inr, List, [], ◌∷◌, ◌++◌, length, length-append, pos, ltb_ℤ,
  if◌then◌else◌, arith,
}
use back_tester.Event.{MarketDataEvent}
use back_tester.AnomalyLog.{BookAnomalyLog}
use back_tester.BlockingQueue.{Queue, Outcome, push_impl}
use back_tester.BookOps.{BookOps}
use back_tester.OrderBook.{Piece, Queries}
use back_tester.SimpleOrderBookRouter
use back_tester.SimpleOrderBookRouter.{empty_router}
use back_tester.SimpleOrderBookRouter.Routing
use back_tester.EventSink.{
  report_after, Sink, new_sink, snapshot_text, count_event, process, process_all, finish, dispatch,
}

abbrev pub one_if : Bool → ℕ
one_if b = if b then 1 else 0

-- The number of the events that have a time of receipt.
abbrev pub counted : List MarketDataEvent → ℕ
counted [] = 0
counted (e ∷ es) = one_if (ltb_ℤ (pos 0) e.ts_recv) + counted es

module _ {B : Type 0} ⦃ops : BookOps B⦄ ⦃queries : Queries B⦄ where
  -- Of one event.
  record IsCounted (n : ℕ) (s s' : Sink B) : Type 0 where
    queue_open : s'.print_queue.closed ≡ false
    counts : s'.counter ≡ s.counter + n
    snapshots :
        length s'.print_queue.queue + s.counter / report_after
        ≡ length s.print_queue.queue + (s.counter + n) / report_after

  count_event-IsCounted :
      (e : MarketDataEvent) (s : Sink B)
      → s.print_queue.closed ≡ false
      → s.counter + one_if (ltb_ℤ (pos 0) e.ts_recv) < 2 ^ 64
      → IsCounted (one_if (ltb_ℤ (pos 0) e.ts_recv)) s (count_event e s)
  unfolding count_event push_impl
  count_event-IsCounted e s opened fits =
      let q = s.print_queue in
      let count = (s.counter + 1) % 2 ^ 64 in
      let text = snapshot_text count s.order_book_router in
      let on = record s { counter = count } in
      let reports = λ (p : Outcome (List Piece) × Queue (List Piece)). record s {
        counter = count;
        print_queue = p.1;
      } in
      let put = record q { queue = q.queue ++ text ∷ [] } in
      let after = λ (b : Bool).
        IsCounted (one_if b) s (
          if b
          then (if count % report_after == 0 then reports (push_impl text q) else on)
          else s) in
      elim (Bool-cases (ltb_ℤ (pos 0) e.ts_recv)) [
        | inr skipped ↦
            subst after (sym skipped)
              (record { queue_open = opened; counts = omega arith; snapshots = omega arith })
        | inl received ↦
            let small : s.counter + 1 < 2 ^ 64 =
              subst (λ b. s.counter + one_if b < 2 ^ 64) received fits in
            subst after (sym received) (
              if_cases (IsCounted 1 s) (count % report_after == 0)
                (λ due.
                  subst
                    (λ c.
                      IsCounted 1 s
                        (reports (if c then (Outcome.threw, q) else (Outcome.done, put))))
                    (sym opened)
                    (record {
                      queue_open = opened;
                      counts = omega (arith, small);
                      snapshots =
                          let n = length-append q.queue (text ∷ []) in
                          let d : (s.counter + 1) % report_after ≡ 0 = ground (arith, due, small) in
                          omega (arith, n, d);
                    }))
                (λ wait. record {
                  queue_open = opened;
                  counts = omega (arith, small);
                  snapshots =
                      let d : 0 < (s.counter + 1) % report_after = ground (arith, wait, small) in
                      omega (arith, d);
                }))
      ]

  count_event-router :
      (e : MarketDataEvent) (s : Sink B)
      → ((count_event e s).order_book_router ≡ s.order_book_router)
        × ((count_event e s).log ≡ s.log)
  unfolding count_event
  count_event-router e s =
      let Same = λ (s' : Sink B). (s'.order_book_router ≡ s.order_book_router) × (s'.log ≡ s.log) in
      if_cases Same (ltb_ℤ (pos 0) e.ts_recv)
        (λ _.
          if_cases Same ((s.counter + 1) % 2 ^ 64 % report_after == 0) (λ _. (refl, refl))
            (λ _. (refl, refl)))
        (λ _. (refl, refl))

  IsCounted-add :
      (m n : ℕ) (s s' s2 : Sink B) → IsCounted m s s' → IsCounted n s' s2 → IsCounted (m + n) s s2
  IsCounted-add m n s s' s2 a b = record {
    queue_open = b.queue_open;
    counts = omega (arith, a.counts, b.counts);
    snapshots =
        let e : s'.counter + n ≡ s.counter + (m + n) = omega (arith, a.counts) in
        let one = ap (λ (k : ℕ). k / report_after) a.counts in
        let two = ap (λ (k : ℕ). k / report_after) e in
        omega (arith, a.snapshots, b.snapshots, one, two);
  }

  process_all-IsCounted :
      (es : List MarketDataEvent) (s : Sink B)
      → s.print_queue.closed ≡ false
      → s.counter + counted es < 2 ^ 64
      → IsCounted (counted es) s (process_all es s)
  unfolding process_all process
  process_all-IsCounted [] s opened small = record {
    queue_open = opened;
    counts = omega arith;
    snapshots = omega arith;
  }
  process_all-IsCounted (e ∷ es) s opened small =
      let (r, l) = SimpleOrderBookRouter.apply e s.order_book_router s.log in
      let s1 = record s { order_book_router = r; log = l } in
      let m = one_if (ltb_ℤ (pos 0) e.ts_recv) in
      let one = count_event-IsCounted e s1 opened (omega (arith, small)) in
      let rest =
        process_all-IsCounted es (process e s) one.queue_open (omega (arith, one.counts, small)) in
      let here : IsCounted m s (process e s) = record {
        queue_open = one.queue_open;
        counts = one.counts;
        snapshots = one.snapshots;
      } in
      IsCounted-add m (counted es) s (process e s) (process_all es (process e s)) here rest

  process_all-router :
      (es : List MarketDataEvent) (s : Sink B)
      → (process_all es s).order_book_router ≡ (Routing.run es s.order_book_router s.log).0
  unfolding process_all process Routing.run
  process_all-router [] s = refl
  process_all-router (e ∷ es) s =
      let (r, l) = SimpleOrderBookRouter.apply e s.order_book_router s.log in
      let k = count_event-router e (record s { order_book_router = r; log = l }) in
      process_all-router es (process e s) ∙ ap₂ (λ x y. (Routing.run es x y).0) k.0 k.1

  -- If fewer than 2 ^ 64 of the events have a time of receipt, then the dispatcher, which starts on a new
  -- sink, applies all events to its router in order, reports the number of those with a time of
  -- receipt, leaves one snapshot to print for every 5,000,000 of them, and closes the print queue.
  pub dispatch_counts :
      (es : List MarketDataEvent) (l : BookAnomalyLog)
      → counted es < 2 ^ 64
      → ((dispatch {B = B} es (new_sink l)).1.messages ≡ counted es)
        × (length (dispatch {B = B} es (new_sink l)).0.print_queue.queue
            ≡ counted es / report_after)
        × ((dispatch {B = B} es (new_sink l)).0.print_queue.closed ≡ true)
        × ((dispatch {B = B} es (new_sink l)).0.order_book_router
            ≡ (Routing.run es empty_router l).0)
  unfolding dispatch finish
  dispatch_counts es l small =
      let c = process_all-IsCounted es (new_sink l) refl (omega (arith, small)) in
      (
        omega (arith, c.counts),
        omega (arith, c.snapshots),
        refl,
        process_all-router es (new_sink l),
      )
