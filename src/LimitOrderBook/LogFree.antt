-- ===== src/LimitOrderBook/LogFree.antt =====
-- The book of src/order_book/LimitOrderBook.cpp writes to the log and does not read it, so that it
-- serves a router.
use back_tester.Prelude.{
  ◌≡◌, refl, ap, ◌∙◌, ◌==◌, ◌==ℤ◌, ◌&&◌, Bool-cases, Option-cases, inl, inr, nat_key, find,
}
use back_tester.Event.{Action, MarketDataEvent}
use back_tester.AnomalyLog.{BookAnomalyLog}
use back_tester.BookSide.{OrderEntry}
use back_tester.BookOps.{BookOps}
use back_tester.OrderBook.{Queries}
use back_tester.LimitOrderBook.{
  Book, empty_book, should_skip_event, cancel_order, join_level, rests_unpriced, replacing_cancel,
  add_order, resize, modify_order, same_side, new_price, new_side, moved, dispatch, apply,
  best_price, volume_at, side_levels,
}

cancel_order-log :
    (e : MarketDataEvent) (b : Book) (l l' : BookAnomalyLog)
    → (cancel_order e b l).0 ≡ (cancel_order e b l').0
unfolding cancel_order
cancel_order-log e b l l' = elim (Option-cases (find e.order_id b.orders)) [
  | inl absent ↦ rw (absent, cancel_order) refl
  | inr (oe, known) ↦ rw (known, cancel_order) refl
]

add_order-log :
    (e : MarketDataEvent) (b : Book) (l l' : BookAnomalyLog)
    → (add_order e b l).0 ≡ (add_order e b l').0
unfolding add_order
add_order-log e b l l' = elim (Bool-cases (rests_unpriced e)) [
  | inl none_rests ↦ rw none_rests refl
  | inr rests ↦ rw rests (elim (Option-cases (find e.order_id b.orders)) [
    | inl absent ↦ rw (absent, add_order) refl
    | inr (oe, known) ↦
        rw (known, add_order)
          (ap (join_level e) (cancel_order-log (replacing_cancel e.order_id) b _ _))
  ])
]

resize-log :
    (e : MarketDataEvent) (oe : OrderEntry) (b : Book) (l l' : BookAnomalyLog)
    → (resize e oe b l).0 ≡ (resize e oe b l').0
unfolding resize
resize-log e oe b l l' = elim (Bool-cases (e.size == 0)) [
  | inl all ↦ rw all (cancel_order-log (record e { size = 0 }) b l l')
  | inr part ↦ rw part refl
]

modify_order-log :
    (e : MarketDataEvent) (b : Book) (l l' : BookAnomalyLog)
    → (modify_order e b l).0 ≡ (modify_order e b l').0
unfolding modify_order
modify_order-log e b l l' = elim (Option-cases (find e.order_id b.orders)) [
  | inl absent ↦
      rw (absent, modify_order)
        (elim (Bool-cases (rests_unpriced e)) [
          | inl none_rests ↦ rw none_rests refl
          | inr rests ↦ rw rests (add_order-log e b _ _)
        ])
  | inr (oe, known) ↦
      rw (known, modify_order)
        (elim (Bool-cases ((new_price e oe ==ℤ oe.price) && same_side (new_side e oe) oe.side)) [
          | inl stays ↦ rw stays (resize-log e oe b l l')
          | inr moves ↦
              let off = record e { size = 0 } in
              rw moves (
                add_order-log (moved e oe) (cancel_order off b l).0 (cancel_order off b l).1
                  (cancel_order off b l').1
                ∙ ap (λ b'. (add_order (moved e oe) b' (cancel_order off b l').1).0)
                    (cancel_order-log off b l l'))
        ])
]

dispatch-log :
    (a : Action) (e : MarketDataEvent) (b : Book) (l l' : BookAnomalyLog)
    → (dispatch a e b l).0 ≡ (dispatch a e b l').0
unfolding dispatch
dispatch-log Action.add e b l l' = add_order-log e b l l'
dispatch-log Action.cancel e b l l' = cancel_order-log e b l l'
dispatch-log Action.modify e b l l' = modify_order-log e b l l'
dispatch-log a e b l l' = refl

pub apply-log :
    (e : MarketDataEvent) (b : Book) (l l' : BookAnomalyLog) → (apply e b l).0 ≡ (apply e b l').0
unfolding apply
apply-log e b l l' = elim (Bool-cases (should_skip_event e.flags)) [
  | inl skips ↦ rw skips refl
  | inr counts ↦ rw counts (dispatch-log e.action e b l l')
]

-- A `LimitOrderBook` as the book of a router.
instance abbrev pub limit_order_book : BookOps Book
limit_order_book = record { fresh = empty_book; apply_book = apply; apply_book-log = apply-log }

instance abbrev pub limit_queries : Queries Book
limit_queries = record { best_price = best_price; volume_at = volume_at; side_levels = side_levels }
