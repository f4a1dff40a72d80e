-- ===== src/LimitOrderBook/Orders.antt =====
-- Which orders rest after an event of src/order_book/LimitOrderBook.cpp: the store of order entries
-- against a specification without levels, in which an order id leads to an entry or to nothing.
use back_tester.Prelude.{
  ℕ, ◌-◌, ◌^◌, ◌≡◌, refl, sym, ap, ap₂, ◌∙◌, ◌==◌, Option, none, some, List, [], ◌∷◌, ℤ, pos, ◌==ℤ◌,
  Bool, true, false, not, ◌&&◌, ◌||◌, if◌then◌else◌, Bool-cases, Option-cases, inl, inr, Dict,
  nat_key, find, assign, erase, find-assign, find-erase, arith,
}
use Prim.Native.Nat.{bit_and}
use back_tester.Event.{Side, is_none, Action, MarketDataEvent, is_price_defined}
use back_tester.AnomalyLog.{BookAnomaly, BookAnomalyLog, log_book}
use back_tester.BookSide.{OrderEntry}
use back_tester.LimitOrderBook.{
  Book, empty_book, should_skip_event, destroy_order, cancel_known, cancel_order, join_level,
  entry_of, rests_unpriced, replacing_cancel, add_order, resize, modify_order, same_side, new_price,
  new_side, moved, dispatch, apply,
}
use back_tester.LimitOrderBook.Moves.{orders-set_side}
use back_tester.LimitOrderBook.Consistent.{run}

abbrev pub Orders : Type 0
Orders = ℕ → Option OrderEntry

abbrev pub put : ℕ → Option OrderEntry → Orders → Orders
put id new m i = if id == i then new else m i

-- A cancel to size 0 takes a known order out, another one leaves that size.
abbrev pub cancelled : MarketDataEvent → Orders → Orders
cancelled e m = elim (m e.order_id) [
  | none ↦ m
  | some oe ↦
      let kept = record oe { quantity = e.size; last_update = e.ts_event } in
      put e.order_id (if e.size == 0 then none else some kept) m
]

-- Without a side or without a price, which is the largest `int64_t`, an order does not rest.
abbrev pub unplaced : Side → ℤ → Bool
unplaced Side.none p = true
unplaced Side.buy p = p ==ℤ pos (2 ^ 63 - 1)
unplaced Side.sell p = p ==ℤ pos (2 ^ 63 - 1)

-- An add rests, with that side and that price, in the place of an order with the same id.
abbrev pub placed : Side → ℤ → MarketDataEvent → Orders → Orders
placed s p e m =
    let new : OrderEntry = record {
      order_id = e.order_id;
      side = s;
      quantity = e.size;
      price = p;
      entry_time = e.ts_event;
      last_update = e.ts_event;
    } in
    if unplaced s p then m else put e.order_id (some new) m

abbrev pub joined : MarketDataEvent → Orders → Orders
joined e m = placed e.side e.price e m

-- The side and the price of a modify, which are the old ones where it names none.
abbrev pub later_side : Side → Side → Side
later_side Side.none old = old
later_side Side.buy old = Side.buy
later_side Side.sell old = Side.sell

abbrev pub later_price : ℤ → ℤ → ℤ
later_price p old = if p ==ℤ pos (2 ^ 63 - 1) then old else p

abbrev pub agree : Side → Side → Bool
agree Side.none Side.none = true
agree Side.buy Side.buy = true
agree Side.sell Side.sell = true
agree _ _ = false

-- A modify of an unknown order is an add, one that keeps price and side is a cancel to the new size,
-- and any other is an add at the new price and side after the old order is out.
abbrev pub modified : MarketDataEvent → Orders → Orders
modified e m = elim (m e.order_id) [
  | none ↦ joined e m
  | some oe ↦
      let s = later_side e.side oe.side in
      let p = later_price e.price oe.price in
      if (p ==ℤ oe.price) && agree s oe.side
      then cancelled e m
      else placed s p e (put e.order_id none m)
]

abbrev pub after_action : Action → MarketDataEvent → Orders → Orders
after_action Action.add e m = joined e m
after_action Action.cancel e m = cancelled e m
after_action Action.modify e m = modified e m
after_action Action.clear e m = λ i. none
after_action Action.fill e m = m
after_action Action.trade e m = m
after_action Action.none e m = m
after_action (Action.other c) e m = m

-- The flags of a bad time of receipt, and of a gap in the channel.
abbrev pub ignored : ℕ → Bool
ignored flags = not (bit_and flags 0x08 == 0) || not (bit_and flags 0x04 == 0)

-- What rests after a stream of events.
unfoldable pub after : List MarketDataEvent → Orders → Orders
after [] m = m
after (e ∷ es) m = after es (if ignored e.flags then m else after_action e.action e m)

abbrev pub Holds : Book → Orders → Type 0
Holds b m = (i : ℕ) → find i b.orders ≡ m i

-- The tests of the code are these.
not-not : (a : Bool) → not (not a) ≡ a
not-not true = refl
not-not false = refl

unplaced_by :
    (s : Side) (a : Bool) (p : ℤ)
    → (p ==ℤ pos (2 ^ 63 - 1)) ≡ a
    → unplaced s p ≡ (is_none s || not (not a))
unplaced_by Side.none a p h = refl
unplaced_by Side.buy a p h = h ∙ sym (not-not a)
unplaced_by Side.sell a p h = h ∙ sym (not-not a)

unplaced-rests : (e : MarketDataEvent) → unplaced e.side e.price ≡ rests_unpriced e
unfolding is_price_defined
unplaced-rests e = unplaced_by e.side (e.price ==ℤ pos (2 ^ 63 - 1)) e.price refl

later_side-new : (s old : Side) → later_side s old ≡ (if is_none s then old else s)
later_side-new Side.none old = refl
later_side-new Side.buy old = refl
later_side-new Side.sell old = refl

later_price-new :
    (e : MarketDataEvent) (oe : OrderEntry) → later_price e.price oe.price ≡ new_price e oe
unfolding is_price_defined
later_price-new e oe = elim (Bool-cases (e.price ==ℤ pos (2 ^ 63 - 1))) [
  | inl undefined ↦ rw undefined refl
  | inr given ↦ rw given refl
]

agree-same : (s t : Side) → agree s t ≡ same_side s t
agree-same Side.none Side.none = refl
agree-same Side.none Side.buy = refl
agree-same Side.none Side.sell = refl
agree-same Side.buy Side.none = refl
agree-same Side.buy Side.buy = refl
agree-same Side.buy Side.sell = refl
agree-same Side.sell Side.none = refl
agree-same Side.sell Side.buy = refl
agree-same Side.sell Side.sell = refl

-- The same of a modify of the order `oe`, in the words of the code.
modified_known :
    (e : MarketDataEvent) (oe : OrderEntry) (m : Orders)
    → m e.order_id ≡ some oe
    → modified e m ≡ (
        if (new_price e oe ==ℤ oe.price) && same_side (new_side e oe) oe.side
        then cancelled e m
        else joined (moved e oe) (put e.order_id none m))
modified_known e oe m known =
    rw (known, modified)
      (ap₂
          (λ s p.
            if (p ==ℤ oe.price) && agree s oe.side
            then cancelled e m
            else placed s p e (put e.order_id none m))
          (later_side-new e.side oe.side) (later_price-new e oe)
        ∙ ap
            (λ a.
              if (new_price e oe ==ℤ oe.price) && a
              then cancelled e m
              else joined (moved e oe) (put e.order_id none m))
            (agree-same (new_side e oe) oe.side))

-- The store after one side and one order have changed.
find-put :
    (id : ℕ) (oe : OrderEntry) (b : Book) (m : Orders) {orders : Dict ℕ OrderEntry}
    → Holds b m
    → orders ≡ b.orders
    → (i : ℕ) → find i (assign id oe orders) ≡ put id (some oe) m i
find-put id oe b m {orders = orders} h e i = find-assign id i oe orders ∙ rw (e, h i) refl

find-take :
    (id : ℕ) (b : Book) (m : Orders) {orders : Dict ℕ OrderEntry}
    → Holds b m
    → orders ≡ b.orders
    → (i : ℕ) → find i (erase id orders) ≡ put id none m i
find-take id b m {orders = orders} h e i = find-erase id i orders ∙ rw (e, h i) refl

destroy_order-Holds :
    (id : ℕ) (oe : OrderEntry) (b : Book) (m : Orders)
    → Holds b m
    → Holds (destroy_order id oe b) (put id none m)
unfolding destroy_order
destroy_order-Holds id oe b m h i = find-take id b m h (orders-set_side oe.side _ b) i

cancel_order-Holds :
    (e : MarketDataEvent) (b : Book) (l : BookAnomalyLog) (m : Orders)
    → Holds b m
    → Holds (cancel_order e b l).0 (cancelled e m)
unfolding cancel_order cancel_known
cancel_order-Holds e b l m h i = elim (Option-cases (find e.order_id b.orders)) [
  | inl absent ↦ rw (absent, cancel_order, sym (h e.order_id) ∙ absent, cancelled) (h i)
  | inr (oe, known) ↦
      rw (known, cancel_order, sym (h e.order_id) ∙ known, cancelled)
        (elim (Bool-cases (e.size == 0)) [
          | inl all ↦ rw all (destroy_order-Holds e.order_id oe b m h i)
          | inr part ↦ rw part (find-put e.order_id _ b m h (orders-set_side oe.side _ b) i)
        ])
]

join_level-Holds :
    (e : MarketDataEvent) (b : Book) (m : Orders)
    → Holds b m
    → Holds (join_level e b) (put e.order_id (some (entry_of e)) m)
unfolding join_level
join_level-Holds e b m h i = find-put e.order_id _ b m h (orders-set_side e.side _ b) i

-- What takes an order out first does not show after one with the same id is put in.
put-cancelled :
    (e e' : MarketDataEvent) (new : Option OrderEntry) (m : Orders) (i : ℕ)
    → e'.order_id ≡ e.order_id
    → put e.order_id new (cancelled e' m) i ≡ put e.order_id new m i
put-cancelled e e' new m i same = elim (Option-cases (m e'.order_id)) [
  | inl absent ↦ rw (absent, cancelled) refl
  | inr (oe, known) ↦ rw (known, cancelled, same) (ground arith)
]

add_order-Holds :
    (e : MarketDataEvent) (b : Book) (l : BookAnomalyLog) (m : Orders)
    → Holds b m
    → Holds (add_order e b l).0 (joined e m)
unfolding add_order
add_order-Holds e b l m h i = elim (Bool-cases (rests_unpriced e)) [
  | inl none_rests ↦ rw (none_rests, unplaced-rests e ∙ none_rests) (h i)
  | inr rests ↦
      rw (rests, unplaced-rests e ∙ rests)
        (elim (Option-cases (find e.order_id b.orders)) [
          | inl absent ↦ rw (absent, add_order) (join_level-Holds e b m h i)
          | inr (oe, known) ↦
              rw (known, add_order)
                (join_level-Holds e _ _ (cancel_order-Holds (replacing_cancel e.order_id) b _ m h) i
                  ∙ put-cancelled e (replacing_cancel e.order_id) (some (entry_of e)) m i refl)
        ])
]

cancel_all-Holds :
    (e : MarketDataEvent) (oe : OrderEntry) (b : Book) (l : BookAnomalyLog) (m : Orders)
    → Holds b m
    → find e.order_id b.orders ≡ some oe
    → Holds (cancel_order (record e { size = 0 }) b l).0 (put e.order_id none m)
cancel_all-Holds e oe b l m h known i =
    cancel_order-Holds (record e { size = 0 }) b l m h i
    ∙ rw (sym (h e.order_id) ∙ known, cancelled) refl

resize-Holds :
    (e : MarketDataEvent) (oe : OrderEntry) (b : Book) (l : BookAnomalyLog) (m : Orders)
    → Holds b m
    → find e.order_id b.orders ≡ some oe
    → Holds (resize e oe b l).0 (cancelled e m)
unfolding resize
resize-Holds e oe b l m h known i =
    rw (sym (h e.order_id) ∙ known, cancelled)
      (elim (Bool-cases (e.size == 0)) [
        | inl all ↦ rw all (cancel_all-Holds e oe b l m h known i)
        | inr part ↦ rw part (find-put e.order_id _ b m h (orders-set_side oe.side _ b) i)
      ])

modify_order-Holds :
    (e : MarketDataEvent) (b : Book) (l : BookAnomalyLog) (m : Orders)
    → Holds b m
    → Holds (modify_order e b l).0 (modified e m)
unfolding modify_order
modify_order-Holds e b l m h i = elim (Option-cases (find e.order_id b.orders)) [
  | inl absent ↦
      rw (absent, modify_order, sym (h e.order_id) ∙ absent, modified)
        (elim (Bool-cases (rests_unpriced e)) [
          | inl none_rests ↦ rw (none_rests, unplaced-rests e ∙ none_rests) (h i)
          | inr rests ↦
              rw (rests, unplaced-rests e ∙ rests)
                (rw (unplaced-rests e ∙ rests) at (
                  add_order-Holds e b
                    (log_book BookAnomaly.unknown_modify_as_add e "LimitOrderBook" l) m h i))
        ])
  | inr (oe, known) ↦
      rw (known, modify_order, modified_known e oe m (sym (h e.order_id) ∙ known))
        (elim (Bool-cases ((new_price e oe ==ℤ oe.price) && same_side (new_side e oe) oe.side)) [
          | inl stays ↦ rw stays (resize-Holds e oe b l m h known i)
          | inr moves ↦ rw moves (
              add_order-Holds (moved e oe) _ _ (put e.order_id none m)
                (cancel_all-Holds e oe b l m h known) i)
        ])
]

dispatch-Holds :
    (a : Action) (e : MarketDataEvent) (b : Book) (l : BookAnomalyLog) (m : Orders)
    → Holds b m
    → Holds (dispatch a e b l).0 (after_action a e m)
unfolding dispatch find
dispatch-Holds Action.add e b l m h = add_order-Holds e b l m h
dispatch-Holds Action.cancel e b l m h = cancel_order-Holds e b l m h
dispatch-Holds Action.modify e b l m h = modify_order-Holds e b l m h
dispatch-Holds Action.clear e b l m h = λ i. refl
dispatch-Holds a e b l m h = h

apply-Holds :
    (e : MarketDataEvent) (b : Book) (l : BookAnomalyLog) (m : Orders)
    → Holds b m
    → Holds (apply e b l).0 (if ignored e.flags then m else after_action e.action e m)
unfolding apply should_skip_event
apply-Holds e b l m h = elim (Bool-cases (should_skip_event e.flags)) [
  | inl skips ↦ rw skips h
  | inr counts ↦ rw counts (dispatch-Holds e.action e b l m h)
]

run-Holds :
    (es : List MarketDataEvent) (b : Book) (l : BookAnomalyLog) (m : Orders)
    → Holds b m
    → Holds (run es b l).0 (after es m)
unfolding run after
run-Holds [] b l m h = h
run-Holds (e ∷ es) b l m h = run-Holds es _ _ _ (apply-Holds e b l m h)

-- After any stream of events from the empty book, an order id leads to the entry that the
-- specification gives: cancels leave the size they name or take the order out, adds replace, modifies
-- resize in place or move, a clear empties, and an event flagged `BAD_TS_RECV` or `MAYBE_BAD_BOOK`
-- changes nothing.
pub find-run :
    (es : List MarketDataEvent) (l : BookAnomalyLog) (id : ℕ)
    → find id (run es empty_book l).0.orders ≡ after es (λ j. none) id
unfolding find
find-run es l id = run-Holds es empty_book l (λ j. none) (λ i. refl) id
