-- ===== src/LimitOrderBook.antt =====
-- src/order_book/LimitOrderBook.hpp and LimitOrderBook.cpp: a book of two sides (`BookSide`), and
-- `orders`, the store of its order entries. Allocation is not modelled. The log is passed along.
pub mod Sums
pub mod Moves
pub mod Changes
pub mod Consistent
pub mod Best
pub mod Orders
pub mod Listing
pub mod Height
pub mod LogFree
use back_tester.Prelude.{
  ℕ, Bool, true, false, not, ◌||◌, ◌&&◌, Option, none, some, List, [], ℤ, pos, ◌+ℤ◌, ◌-ℤ◌, ◌==ℤ◌,
  ◌==◌, if◌then◌else◌, Dict, nat_key, int_key, find, assign, erase,
}
use back_tester.Event.{
  Side, is_buy, is_sell, is_none, Action, MarketDataEvent, default_event, is_price_defined, to_u64,
}
use back_tester.Event.Flags.{has_flag, bad_ts_recv, maybe_bad_book}
use back_tester.AnomalyLog.{BookAnomaly, BookAnomalyLog, log_book}
use back_tester.PriceLevel.{Tree, nil, node}
use back_tester.BookSide.{
  OrderEntry, Level, SideBook, empty_side, update_level, leave_level, ensure_level, with_order,
}
use back_tester.BookSide.Traversal.{walk_up, walk_down, size, place_of}

pub record Book : Type 0 where
  pub bid : SideBook
  pub ask : SideBook
  pub orders : Dict ℕ OrderEntry

-- `clear_book` leaves this.
abbrev pub empty_book : Book
empty_book = record { bid = empty_side; ask = empty_side; orders = [] }

-- `release_moved_from`: what is left of a book that another one has taken over.
unfoldable pub release_moved_from : Book → Book
release_moved_from b = record {
  bid = record { tree = nil; best = none; levels = [] };
  ask = record { tree = nil; best = none; levels = [] };
  orders = [];
}

-- The move constructor: the new book, and what is left of `other`.
unfoldable pub move_construct : Book → Book × Book
unfolding release_moved_from
move_construct other =
    (record { bid = other.bid; ask = other.ask; orders = other.orders }, release_moved_from other)

-- The move assignment: this book and `other` after it. `same` is `this == &other`.
unfoldable pub move_assign : Bool → Book → Book → Book × Book
unfolding move_construct
move_assign same this other = if same then (this, other) else move_construct other

abbrev pub side_of : Side → Book → SideBook
side_of s b = if is_buy s then b.bid else b.ask

abbrev pub set_side : Side → SideBook → Book → Book
set_side s sb b = if is_buy s then record b { bid = sb } else record b { ask = sb }

unfoldable pub should_skip_event : ℕ → Bool
unfolding has_flag
should_skip_event flags = has_flag flags bad_ts_recv || has_flag flags maybe_bad_book

unfoldable pub destroy_order : ℕ → OrderEntry → Book → Book
destroy_order id oe b =
    let b' = set_side oe.side (leave_level oe (side_of oe.side b)) b in
    record b' { orders = erase id b'.orders }

-- The known order of `cancel_order`.
unfoldable pub cancel_known : MarketDataEvent → OrderEntry → Book → Book
cancel_known e oe b =
    let delta = pos oe.quantity -ℤ pos e.size in
    let shrink = λ (lv : Level). record lv { total_quantity = lv.total_quantity -ℤ delta } in
    let b' = set_side oe.side (update_level oe.price shrink (side_of oe.side b)) b in
    let oe' = record oe { quantity = e.size; last_update = e.ts_event } in
    if e.size == 0
    then destroy_order e.order_id oe b
    else record b' { orders = assign e.order_id oe' b'.orders }

unfoldable pub cancel_order : MarketDataEvent → Book → BookAnomalyLog → Book × BookAnomalyLog
cancel_order e b l = elim (find e.order_id b.orders) [
  | none ↦ (b, log_book BookAnomaly.unknown_cancel e "LimitOrderBook" l)
  | some oe ↦ (cancel_known e oe b, l)
]

abbrev pub entry_of : MarketDataEvent → OrderEntry
entry_of e = record {
  order_id = e.order_id;
  side = e.side;
  quantity = e.size;
  price = e.price;
  entry_time = e.ts_event;
  last_update = e.ts_event;
}

-- `add_order` from the look-up of the level on.
unfoldable pub join_level : MarketDataEvent → Book → Book
unfolding ensure_level
join_level e b =
    let sb = ensure_level e.side e.price (side_of e.side b) in
    let b' = set_side e.side (update_level e.price (with_order (entry_of e)) sb) b in
    record b' { orders = assign e.order_id (entry_of e) b'.orders }

abbrev pub rests_unpriced : MarketDataEvent → Bool
rests_unpriced e = is_none e.side || not (is_price_defined e)

-- The cancel that `add_order` makes for an order that it replaces.
abbrev pub replacing_cancel : ℕ → MarketDataEvent
replacing_cancel id = record default_event { order_id = id; size = 0 }

unfoldable pub add_order : MarketDataEvent → Book → BookAnomalyLog → Book × BookAnomalyLog
add_order e b l = if rests_unpriced e then (b, l) else elim (find e.order_id b.orders) [
  | none ↦ (join_level e b, l)
  | some oe ↦
      let (b', l') =
        cancel_order (replacing_cancel e.order_id) b
          (log_book BookAnomaly.duplicate_add_replaced e "LimitOrderBook" l) in
      (join_level e b', l')
]

-- A modify that keeps price and side.
unfoldable pub resize : MarketDataEvent → OrderEntry → Book → BookAnomalyLog → Book × BookAnomalyLog
resize e oe b l =
    let grow = λ (lv : Level). record lv {
      total_quantity = lv.total_quantity +ℤ (pos e.size -ℤ pos oe.quantity);
    } in
    let b' = set_side oe.side (update_level oe.price grow (side_of oe.side b)) b in
    let oe' = record oe { quantity = e.size; last_update = e.ts_event } in
    if e.size == 0
    then cancel_order (record e { size = 0 }) b l
    else (record b' { orders = assign e.order_id oe' b'.orders }, l)

abbrev pub same_side : Side → Side → Bool
same_side s t = (is_buy s && is_buy t) || ((is_sell s && is_sell t) || (is_none s && is_none t))

abbrev pub new_price : MarketDataEvent → OrderEntry → ℤ
new_price e oe = if is_price_defined e then e.price else oe.price

abbrev pub new_side : MarketDataEvent → OrderEntry → Side
new_side e oe = if is_none e.side then oe.side else e.side

-- `add_ev` of a modify that moves the order.
abbrev pub moved : MarketDataEvent → OrderEntry → MarketDataEvent
moved e oe = record e { action = Action.add; side = new_side e oe; price = new_price e oe }

unfoldable pub modify_order : MarketDataEvent → Book → BookAnomalyLog → Book × BookAnomalyLog
modify_order e b l = elim (find e.order_id b.orders) [
  | none ↦
      if rests_unpriced e
      then (b, log_book BookAnomaly.unknown_modify_ignored e "LimitOrderBook" l)
      else add_order e b (log_book BookAnomaly.unknown_modify_as_add e "LimitOrderBook" l)
  | some oe ↦
      if (new_price e oe ==ℤ oe.price) && same_side (new_side e oe) oe.side
      then resize e oe b l
      else (let (b', l') = cancel_order (record e { size = 0 }) b l in add_order (moved e oe) b' l')
]

-- The `switch` of `apply_impl`.
unfoldable pub dispatch : Action → MarketDataEvent → Book → BookAnomalyLog → Book × BookAnomalyLog
dispatch Action.add e b l = add_order e b l
dispatch Action.cancel e b l = cancel_order e b l
dispatch Action.modify e b l = modify_order e b l
dispatch Action.clear e b l = (empty_book, l)
dispatch Action.fill e b l = (b, l)
dispatch Action.trade e b l = (b, l)
dispatch Action.none e b l = (b, l)
dispatch (Action.other c) e b l = (b, l)

unfoldable pub apply : MarketDataEvent → Book → BookAnomalyLog → Book × BookAnomalyLog
unfolding dispatch should_skip_event
apply e b l = if should_skip_event e.flags then (b, l) else dispatch e.action e b l

unfoldable pub best_price : Side → Book → Option ℤ
best_price Side.buy b = b.bid.best
best_price Side.sell b = b.ask.best
best_price Side.none b = none

abbrev pub volume_of : Option Level → ℕ
volume_of none = 0
volume_of (some lv) = to_u64 lv.total_quantity

unfoldable pub volume_at : Side → ℤ → Book → ℕ
volume_at Side.buy p b = volume_of (find p b.bid.levels)
volume_at Side.sell p b = volume_of (find p b.ask.levels)
volume_at Side.none p b = 0

abbrev pub is_nil : Tree → Bool
is_nil nil = true
is_nil (node l p h r) = false

unfoldable pub empty : Side → Book → Bool
empty Side.buy b = is_nil b.bid.tree
empty Side.sell b = is_nil b.ask.tree
empty Side.none b = is_nil b.bid.tree && is_nil b.ask.tree

-- `total_quantity` behind a pointer to the level with this price.
abbrev pub quantity_of : Option Level → ℤ
quantity_of none = pos 0
quantity_of (some lv) = lv.total_quantity

abbrev pub quantity_at : Dict ℤ Level → ℤ → ℤ
quantity_at levels p = quantity_of (find p levels)

unfoldable pub side_levels : Side → Book → List (ℤ × ℤ)
unfolding walk_up walk_down place_of
side_levels Side.buy b =
    walk_down (quantity_at b.bid.levels) (size b.bid.tree) (place_of b.bid.best b.bid.tree)
side_levels Side.sell b =
    walk_up (quantity_at b.ask.levels) (size b.ask.tree) (place_of b.ask.best b.ask.tree)
side_levels Side.none b = []
