-- ===== src/LimitOrderBook/Consistent.antt =====
-- `apply_impl` of src/order_book/LimitOrderBook.cpp keeps the book consistent, whatever the event, and
-- what the queries then answer.
use back_tester.Prelude.{
  ℕ, ◌≡◌, refl, ◌∙◌, ◌==◌, ◌%◌, ◌^◌, Bool, true, false, Option, none, List, [], ◌∷◌, ℤ, pos, ◌+ℤ◌,
  ◌-ℤ◌, ◌==ℤ◌, ◌&&◌, some, Bool-cases, Option-cases, inl, inr, nat_key, int_key, find, find-erase,
  ==_iff, arith,
}
use back_tester.Event.{Side, Action, MarketDataEvent}
use back_tester.AnomalyLog.{BookAnomaly, BookAnomalyLog, log_book}
use back_tester.BookSide.{OrderEntry, Level}
use back_tester.BookSide.Ordered.{empty_side-IsOrdered}
use back_tester.LimitOrderBook.{
  Book, empty_book, should_skip_event, destroy_order, cancel_known, cancel_order, rests_unpriced,
  replacing_cancel, add_order, resize, modify_order, same_side, new_price, new_side, moved,
  dispatch, apply, volume_at, volume_of,
}
use back_tester.LimitOrderBook.Sums.{resting, crowd, Shows}
use back_tester.LimitOrderBook.Moves.{IsConsistent, levels_at, destroy_order-IsConsistent}
use back_tester.LimitOrderBook.Changes.{Replaces, resized-IsConsistent, join_level-IsConsistent}

empty_book-IsConsistent : IsConsistent empty_book
unfolding find
empty_book-IsConsistent = record {
  unique = tt;
  shown = empty-shown;
  bids_ordered = empty_side-IsOrdered Side.buy;
  asks_ordered = empty_side-IsOrdered Side.sell;
}
  where
    empty-shown :
        (s : Bool) (p : ℤ) → Shows (find p (levels_at s empty_book)) (resting s p []) (crowd s p [])
    empty-shown true p = (refl, refl)
    empty-shown false p = (refl, refl)

shrink-Replaces :
    (old size : ℕ)
    → Replaces old size
        (λ lv. record lv { total_quantity = lv.total_quantity -ℤ (pos old -ℤ pos size) })
unfolding ◌-ℤ◌
shrink-Replaces old size lv n h = (rw h (ground arith), refl)

grow-Replaces :
    (old size : ℕ)
    → Replaces old size
        (λ lv. record lv { total_quantity = lv.total_quantity +ℤ (pos size -ℤ pos old) })
unfolding ◌+ℤ◌ ◌-ℤ◌
grow-Replaces old size lv n h = (rw h (ground arith), refl)

cancel_order-IsConsistent :
    (e : MarketDataEvent) (b : Book) (l : BookAnomalyLog)
    → IsConsistent b
    → IsConsistent (cancel_order e b l).0
unfolding cancel_order cancel_known
cancel_order-IsConsistent e b l c = elim (Option-cases (find e.order_id b.orders)) [
  | inl absent ↦ rw (absent, cancel_order) c
  | inr (oe, known) ↦
      rw (known, cancel_order)
        (elim (Bool-cases (e.size == 0)) [
          | inl all ↦ rw all (destroy_order-IsConsistent e.order_id oe b c known)
          | inr some_left ↦ rw some_left (
              resized-IsConsistent e.order_id oe e.size e.ts_event _ b c known
                (shrink-Replaces oe.quantity e.size))
        ])
]

-- A cancel down to nothing takes the order out.
find-cancel_order :
    (e : MarketDataEvent) (b : Book) (l : BookAnomalyLog)
    → e.size ≡ 0
    → find e.order_id (cancel_order e b l).0.orders ≡ none
unfolding cancel_order cancel_known destroy_order
find-cancel_order e b l all = elim (Option-cases (find e.order_id b.orders)) [
  | inl absent ↦ rw (absent, cancel_order) absent
  | inr (oe, known) ↦
      rw (known, cancel_order, (==_iff e.size 0).1 all)
        (find-erase e.order_id e.order_id _ ∙ rw ((==_iff e.order_id e.order_id).1 refl))
]

add_order-IsConsistent :
    (e : MarketDataEvent) (b : Book) (l : BookAnomalyLog)
    → IsConsistent b
    → IsConsistent (add_order e b l).0
unfolding add_order
add_order-IsConsistent e b l c = elim (Bool-cases (rests_unpriced e)) [
  | inl none_rests ↦ rw none_rests c
  | inr rests ↦ rw rests (elim (Option-cases (find e.order_id b.orders)) [
    | inl absent ↦ rw (absent, add_order) (join_level-IsConsistent e b c absent)
    | inr (oe, known) ↦
        let gone = replacing_cancel e.order_id in
        let l' = log_book BookAnomaly.duplicate_add_replaced e "LimitOrderBook" l in
        rw (known, add_order)
          (join_level-IsConsistent e (cancel_order gone b l').0
            (cancel_order-IsConsistent gone b l' c) (find-cancel_order gone b l' refl))
  ])
]

resize-IsConsistent :
    (e : MarketDataEvent) (oe : OrderEntry) (b : Book) (l : BookAnomalyLog)
    → IsConsistent b
    → find e.order_id b.orders ≡ some oe
    → IsConsistent (resize e oe b l).0
unfolding resize
resize-IsConsistent e oe b l c known = elim (Bool-cases (e.size == 0)) [
  | inl all ↦ rw all (cancel_order-IsConsistent (record e { size = 0 }) b l c)
  | inr some_left ↦ rw some_left (
      resized-IsConsistent e.order_id oe e.size e.ts_event _ b c known
        (grow-Replaces oe.quantity e.size))
]

modify_order-IsConsistent :
    (e : MarketDataEvent) (b : Book) (l : BookAnomalyLog)
    → IsConsistent b
    → IsConsistent (modify_order e b l).0
unfolding modify_order
modify_order-IsConsistent e b l c = elim (Option-cases (find e.order_id b.orders)) [
  | inl absent ↦
      rw (absent, modify_order)
        (elim (Bool-cases (rests_unpriced e)) [
          | inl none_rests ↦ rw none_rests c
          | inr rests ↦ rw rests (add_order-IsConsistent e b _ c)
        ])
  | inr (oe, known) ↦
      rw (known, modify_order)
        (elim (Bool-cases ((new_price e oe ==ℤ oe.price) && same_side (new_side e oe) oe.side)) [
          | inl stays ↦ rw stays (resize-IsConsistent e oe b l c known)
          | inr moves ↦
              let off = record e { size = 0 } in
              rw moves (
                add_order-IsConsistent (moved e oe) (cancel_order off b l).0
                  (cancel_order off b l).1 (cancel_order-IsConsistent off b l c))
        ])
]

dispatch-IsConsistent :
    (a : Action) (e : MarketDataEvent) (b : Book) (l : BookAnomalyLog)
    → IsConsistent b
    → IsConsistent (dispatch a e b l).0
unfolding dispatch
dispatch-IsConsistent Action.add e b l c = add_order-IsConsistent e b l c
dispatch-IsConsistent Action.cancel e b l c = cancel_order-IsConsistent e b l c
dispatch-IsConsistent Action.modify e b l c = modify_order-IsConsistent e b l c
dispatch-IsConsistent Action.clear e b l c = empty_book-IsConsistent
dispatch-IsConsistent a e b l c = c

-- Whatever the event, `apply_impl` keeps the book consistent: the orders have unique ids, each level
-- shows the number and total quantity of the orders that rest there and no level is without an order,
-- and on each side the AVL tree, the hash map and the best pointer agree.
pub apply-IsConsistent :
    (e : MarketDataEvent) (b : Book) (l : BookAnomalyLog)
    → IsConsistent b
    → IsConsistent (apply e b l).0
unfolding apply
apply-IsConsistent e b l c = elim (Bool-cases (should_skip_event e.flags)) [
  | inl skips ↦ rw skips c
  | inr counts ↦ rw counts (dispatch-IsConsistent e.action e b l c)
]

-- A stream of events, applied in order.
unfoldable pub run : List MarketDataEvent → Book → BookAnomalyLog → Book × BookAnomalyLog
run [] b l = (b, l)
run (e ∷ es) b l = let (b', l') = apply e b l in run es b' l'

run-IsConsistent :
    (es : List MarketDataEvent) (b : Book) (l : BookAnomalyLog)
    → IsConsistent b
    → IsConsistent (run es b l).0
unfolding run
run-IsConsistent [] b l c = c
run-IsConsistent (e ∷ es) b l c =
    run-IsConsistent es (apply e b l).0 (apply e b l).1 (apply-IsConsistent e b l c)

-- After any stream of events from the empty book the book is consistent: its order ids are unique, each
-- level shows the number and total quantity of its orders, no level is without an order, and tree, hash
-- map and best pointer of each side agree.
pub run_empty-IsConsistent :
    (es : List MarketDataEvent) (l : BookAnomalyLog) → IsConsistent (run es empty_book l).0
run_empty-IsConsistent es l = run-IsConsistent es empty_book l empty_book-IsConsistent

shown-volume : (o : Option Level) (n c : ℕ) → Shows o n c → volume_of o ≡ n % 2 ^ 64
shown-volume none n c sh = rw sh.0
shown-volume (some lv) n c sh = rw sh.0

volume_at-resting :
    (b : Book) (p : ℤ)
    → IsConsistent b
    → (volume_at Side.buy p b ≡ resting true p b.orders % 2 ^ 64)
      × (volume_at Side.sell p b ≡ resting false p b.orders % 2 ^ 64)
unfolding volume_at
volume_at-resting b p c =
    (shown-volume _ _ _ (c.shown true p), shown-volume _ _ _ (c.shown false p))

-- After any stream of events from the empty book, the volume at each price of each side is the total
-- quantity of the orders of that side that rest at that price, modulo 2 ^ 64.
pub volume_at-run :
    (es : List MarketDataEvent) (l : BookAnomalyLog) (p : ℤ)
    → (volume_at Side.buy p (run es empty_book l).0
        ≡ resting true p (run es empty_book l).0.orders % 2 ^ 64)
      × (volume_at Side.sell p (run es empty_book l).0
          ≡ resting false p (run es empty_book l).0.orders % 2 ^ 64)
volume_at-run es l p = volume_at-resting _ p (run_empty-IsConsistent es l)
