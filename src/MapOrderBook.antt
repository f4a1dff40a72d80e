-- ===== src/MapOrderBook.antt =====
-- src/order_book/MapOrderBook.hpp and MapOrderBook.cpp: a book of price levels in two ordered maps,
-- with an index from order id to what each resting order adds to its level. The maps are the
-- instance `LevelMaps`; the memory resource and the cache of `side_levels_impl` are not modelled.
-- A level's quantity, an `int64_t` there, is an integer. The log is passed along.
pub mod Levels
pub mod Volume
pub mod Consistent
pub mod Best
use Prim.Native.String.{String}
use back_tester.Prelude.{
  ℕ, suc, Bool, true, false, not, ◌||◌, ◌&&◌, Option, none, some, List, [], ◌∷◌, ℤ, pos, ◌+ℤ◌, ◌-ℤ◌,
  ltb_ℤ, leb_ℤ, ◌==◌, if◌then◌else◌, Dict, nat_key, find, assign, erase,
}
use back_tester.Event.{
  Side, is_buy, is_sell, is_none, Action, MarketDataEvent, is_price_defined, to_u64,
}
use back_tester.AnomalyLog.{BookAnomaly, BookAnomalyLog, log_book}
use back_tester.LevelMap.{ascending, descending, OrderedMap}

-- `OrderRecord`, a tuple there.
pub record OrderRecord : Type 0 where
  pub side : Side
  pub price : ℤ
  pub size : ℕ

-- The two kinds of map of a book: `BidMap` and `AskMap`.
pub record LevelMaps (B A : Type 0) : Type 0 where
  pub bid_map : OrderedMap descending B
  pub ask_map : OrderedMap ascending A

pub record Book (B A : Type 0) : Type 0 where
  pub bids : B
  pub asks : A
  pub order_index : Dict ℕ OrderRecord

-- What `operator[]` reads: 0 for a key that is new.
abbrev pub or_zero : Option ℤ → ℤ
or_zero none = pos 0
or_zero (some q) = q

abbrev pub record_of : MarketDataEvent → OrderRecord
record_of e = record { side = e.side; price = e.price; size = e.size }

abbrev pub rests_unpriced : MarketDataEvent → Bool
rests_unpriced e = is_none e.side || not (is_price_defined e)

abbrev pub modified : MarketDataEvent → OrderRecord → OrderRecord
modified e r = record {
  side = if is_none e.side then r.side else e.side;
  price = if is_price_defined e then e.price else r.price;
  size = e.size;
}

-- `m[price] += delta`
abbrev pub add_level : {before : ℤ → ℤ → Bool} {M : Type 0} → OrderedMap before M → ℤ → ℤ → M → M
add_level o price delta m = o.set_level price (or_zero (o.level_at price m) +ℤ delta) m

-- One branch of `remove_from_level`: a level that falls to zero or below is erased.
abbrev pub remove_level : {before : ℤ → ℤ → Bool} {M : Type 0} → OrderedMap before M → ℤ → ℤ → M → M
remove_level o price delta m = elim (o.level_at price m) [
  | none ↦ m
  | some q ↦
      if leb_ℤ (q -ℤ delta) (pos 0) then o.erase_level price m else o.set_level price (q -ℤ delta) m
]

-- `begin()->first`, if there is one.
abbrev pub first_price : List (ℤ × ℤ) → Option ℤ
first_price [] = none
first_price ((p, q) ∷ rest) = some p

abbrev pub is_empty : List (ℤ × ℤ) → Bool
is_empty [] = true
is_empty (x ∷ rest) = false

-- `it != end() ? static_cast<uint64_t>(it->second) : 0`
abbrev pub volume_of : Option ℤ → ℕ
volume_of none = 0
volume_of (some q) = to_u64 q

module _ {B A : Type 0} ⦃maps : LevelMaps B A⦄ where
  open maps use {bid_map, ask_map}

  abbrev pub empty_book : Book B A
  empty_book = record { bids = bid_map.empty; asks = ask_map.empty; order_index = [] }

  unfoldable pub add_to_level : Side → ℤ → ℤ → Book B A → Book B A
  add_to_level side price delta b =
      if is_buy side
      then record b { bids = add_level bid_map price delta b.bids }
      else record b { asks = add_level ask_map price delta b.asks }

  unfoldable pub remove_from_level : Side → ℤ → ℤ → Book B A → Book B A
  remove_from_level side price delta b =
      if is_buy side
      then record b { bids = remove_level bid_map price delta b.bids }
      else record b { asks = remove_level ask_map price delta b.asks }

  -- The order rests at its level, and the index remembers it.
  unfoldable pub rest_order : MarketDataEvent → Book B A → Book B A
  rest_order e b =
      let b' = add_to_level e.side e.price (pos e.size) b in
      record b' { order_index = assign e.order_id (record_of e) b'.order_index }

  -- `case Action::Add`
  unfoldable pub apply_add : MarketDataEvent → Book B A → BookAnomalyLog → Book B A × BookAnomalyLog
  apply_add e b l = if rests_unpriced e then (b, l) else elim (find e.order_id b.order_index) [
    | none ↦ (rest_order e b, l)
    | some r ↦ (
      rest_order e (remove_from_level r.side r.price (pos r.size) b),
      log_book BookAnomaly.duplicate_add_replaced e "MapOrderBook" l,
    )
  ]

  -- The known order of `case Action::Cancel`. `size` is a `uint32_t`, so the cast back to one
  -- keeps it.
  unfoldable pub cancel_known : MarketDataEvent → OrderRecord → Book B A → Book B A
  cancel_known e r b =
      let delta = pos r.size -ℤ pos e.size in
      let b' = if ltb_ℤ (pos 0) delta then remove_from_level r.side r.price delta b else b in
      if e.size == 0
      then record b' { order_index = erase e.order_id b'.order_index }
      else record b' { order_index = assign e.order_id (record r { size = e.size }) b'.order_index }

  -- `case Action::Cancel`
  unfoldable pub apply_cancel :
      MarketDataEvent → Book B A → BookAnomalyLog → Book B A × BookAnomalyLog
  apply_cancel e b l = elim (find e.order_id b.order_index) [
    | none ↦ (b, log_book BookAnomaly.unknown_cancel e "MapOrderBook" l)
    | some r ↦ (cancel_known e r b, l)
  ]

  -- The known order of `case Action::Modify`.
  unfoldable pub modify_known : MarketDataEvent → OrderRecord → Book B A → Book B A
  modify_known e r b =
      let r' = modified e r in
      let b' = remove_from_level r.side r.price (pos r.size) b in
      let b'' = add_to_level r'.side r'.price (pos e.size) b' in
      record b'' { order_index = assign e.order_id r' b''.order_index }

  -- `case Action::Modify`
  unfoldable pub apply_modify :
      MarketDataEvent → Book B A → BookAnomalyLog → Book B A × BookAnomalyLog
  apply_modify e b l = elim (find e.order_id b.order_index) [
    | none ↦
        if rests_unpriced e
        then (b, log_book BookAnomaly.unknown_modify_ignored e "MapOrderBook" l)
        else (rest_order e b, log_book BookAnomaly.unknown_modify_as_add e "MapOrderBook" l)
    | some r ↦ (modify_known e r b, l)
  ]

  -- `apply_impl`, by the action of the event.
  unfoldable pub dispatch :
      Action → MarketDataEvent → Book B A → BookAnomalyLog → Book B A × BookAnomalyLog
  dispatch Action.add e b l = apply_add e b l
  dispatch Action.cancel e b l = apply_cancel e b l
  dispatch Action.fill e b l = (b, l)
  dispatch Action.modify e b l = apply_modify e b l
  dispatch Action.trade e b l = (b, l)
  dispatch Action.clear e b l = (empty_book, l)
  dispatch Action.none e b l = (b, l)
  dispatch (Action.other c) e b l = (b, l)

  unfoldable pub apply : MarketDataEvent → Book B A → BookAnomalyLog → Book B A × BookAnomalyLog
  unfolding dispatch
  apply e b l = dispatch e.action e b l

  unfoldable pub best_price : Side → Book B A → Option ℤ
  best_price Side.buy b = first_price (bid_map.items b.bids)
  best_price Side.sell b = first_price (ask_map.items b.asks)
  best_price Side.none b = none

  unfoldable pub volume_at : Side → ℤ → Book B A → ℕ
  volume_at Side.buy price b = volume_of (bid_map.level_at price b.bids)
  volume_at Side.sell price b = volume_of (ask_map.level_at price b.asks)
  volume_at Side.none price b = 0

  unfoldable pub empty : Side → Book B A → Bool
  empty Side.buy b = is_empty (bid_map.items b.bids)
  empty Side.sell b = is_empty (ask_map.items b.asks)
  empty Side.none b = is_empty (ask_map.items b.asks) && is_empty (bid_map.items b.bids)

  unfoldable pub side_levels : Side → Book B A → List (ℤ × ℤ)
  side_levels side b = if is_buy side then bid_map.items b.bids else ask_map.items b.asks
