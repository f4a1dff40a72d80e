-- ===== src/AbseilOrderBook.antt =====
-- src/order_book/AbseilOrderBook.hpp and AbseilOrderBook.cpp, the book that `main` runs. Its members,
-- level helpers and queries have the text of MapOrderBook's, over `absl::btree_map`, and are the same
-- definitions here; `apply_impl` differs: it logs nothing, and an add does not look for an order of
-- the same id.
pub mod Agrees
pub mod Duplicates
use back_tester.Prelude.{
  ℕ, Bool, Option, none, some, List, ℤ, pos, ◌-ℤ◌, ltb_ℤ, ◌==◌, if◌then◌else◌, nat_key, find,
  assign, erase,
}
use back_tester.Event.{Side, Action, MarketDataEvent}
use back_tester.MapOrderBook
use back_tester.MapOrderBook.{
  OrderRecord, LevelMaps, Book, record_of, modified, rests_unpriced, empty_book,
}

module _ {B A : Type 0} ⦃maps : LevelMaps B A⦄ where
  abbrev pub add_to_level : Side → ℤ → ℤ → Book B A → Book B A
  add_to_level = MapOrderBook.add_to_level

  abbrev pub remove_from_level : Side → ℤ → ℤ → Book B A → Book B A
  remove_from_level = MapOrderBook.remove_from_level

  -- `add_to_level` and the assignment to the index, as in two cases of `apply_impl`.
  unfoldable pub rest_order : MarketDataEvent → Book B A → Book B A
  rest_order e b =
      let b' = add_to_level e.side e.price (pos e.size) b in
      record b' { order_index = assign e.order_id (record_of e) b'.order_index }

  -- `case Action::Add`
  unfoldable pub apply_add : MarketDataEvent → Book B A → Book B A
  apply_add e b = if rests_unpriced e then b else rest_order e b

  unfoldable pub cancel_known : MarketDataEvent → OrderRecord → Book B A → Book B A
  cancel_known e r b =
      let delta = pos r.size -ℤ pos e.size in
      let b' = if ltb_ℤ (pos 0) delta then remove_from_level r.side r.price delta b else b in
      if e.size == 0
      then record b' { order_index = erase e.order_id b'.order_index }
      else record b' { order_index = assign e.order_id (record r { size = e.size }) b'.order_index }

  -- `case Action::Cancel`
  unfoldable pub apply_cancel : MarketDataEvent → Book B A → Book B A
  apply_cancel e b = elim (find e.order_id b.order_index) [ none ↦ b | some r ↦ cancel_known e r b ]

  unfoldable pub modify_known : MarketDataEvent → OrderRecord → Book B A → Book B A
  modify_known e r b =
      let r' = modified e r in
      let b' = remove_from_level r.side r.price (pos r.size) b in
      let b'' = add_to_level r'.side r'.price (pos e.size) b' in
      record b'' { order_index = assign e.order_id r' b''.order_index }

  -- `case Action::Modify`
  unfoldable pub apply_modify : MarketDataEvent → Book B A → Book B A
  apply_modify e b = elim (find e.order_id b.order_index) [
    | none ↦ if rests_unpriced e then b else rest_order e b
    | some r ↦ modify_known e r b
  ]

  -- `apply_impl`, by the action of the event.
  unfoldable pub dispatch : Action → MarketDataEvent → Book B A → Book B A
  dispatch Action.add e b = apply_add e b
  dispatch Action.cancel e b = apply_cancel e b
  dispatch Action.fill e b = b
  dispatch Action.modify e b = apply_modify e b
  dispatch Action.trade e b = b
  dispatch Action.clear e b = empty_book
  dispatch Action.none e b = b
  dispatch (Action.other c) e b = b

  unfoldable pub apply : MarketDataEvent → Book B A → Book B A
  unfolding dispatch
  apply e b = dispatch e.action e b

  abbrev pub best_price : Side → Book B A → Option ℤ
  best_price = MapOrderBook.best_price

  abbrev pub volume_at : Side → ℤ → Book B A → ℕ
  volume_at = MapOrderBook.volume_at

  abbrev pub empty : Side → Book B A → Bool
  empty = MapOrderBook.empty

  abbrev pub side_levels : Side → Book B A → List (ℤ × ℤ)
  side_levels = MapOrderBook.side_levels
