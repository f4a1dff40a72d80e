-- ===== src/BookSide.antt =====
-- src/order_book/OrderEntry.hpp and the part of src/order_book/LimitOrderBook.cpp that works on one
-- side of the book: its levels, in an AVL tree and in a hash map, and its best level.
-- A `PriceLevel*` of a side is its price, and `levels` is the store of the level objects; an
-- `OrderEntry*` is its order id. The list that runs through `next` and `prev` from `front` to `back`
-- is the list of order ids of its level. A write through a pointer to a level that is not there
-- changes nothing here.
pub mod Keys
pub mod Extremes
pub mod Ordered
pub mod Traversal
use back_tester.Prelude.{
  ℕ, Bool, true, false, Option, none, some, List, [], ◌∷◌, ◌++◌, ℤ, pos, ◌+ℤ◌, ◌-ℤ◌, ltb_ℤ, ◌==ℤ◌,
  ◌==◌, if◌then◌else◌, Dict, int_key, find, assign, erase,
}
use back_tester.Event.{Side, is_buy}
use back_tester.PriceLevel.{Tree, nil, node, avl_insert, avl_remove}

-- `OrderEntry`. The quantity is an `int64_t` that only ever takes the value of a `uint32_t`.
pub record OrderEntry : Type 0 where
  pub order_id : ℕ
  pub side : Side
  pub quantity : ℕ
  pub price : ℤ
  pub entry_time : ℤ
  pub last_update : ℤ

-- A `PriceLevel` without its place in the tree.
pub record Level : Type 0 where
  pub order_count : ℤ
  pub total_quantity : ℤ
  pub orders : List ℕ

-- What `tree_for`, `best_for` and `levels_for` choose between.
pub record SideBook : Type 0 where
  pub tree : Tree
  pub best : Option ℤ
  pub levels : Dict ℤ Level

abbrev pub empty_side : SideBook
empty_side = record { tree = nil; best = none; levels = [] }

unfoldable pub tree_max : Tree → Option ℤ
tree_max nil = none
tree_max (node l p h nil) = some p
tree_max (node l p h (node rl rp rh rr)) = tree_max (node rl rp rh rr)

unfoldable pub tree_min : Tree → Option ℤ
tree_min nil = none
tree_min (node nil p h r) = some p
tree_min (node (node ll lp lh lr) p h r) = tree_min (node ll lp lh lr)

abbrev pub extreme : Side → Tree → Option ℤ
unfolding tree_max tree_min
extreme s t = if is_buy s then tree_max t else tree_min t

-- Is it the price of this pointer?
abbrev pub points_at : ℤ → Option ℤ → Bool
points_at p none = false
points_at p (some q) = q ==ℤ p

-- `remove_level`
unfoldable pub remove_level : ℤ → Side → SideBook → SideBook
remove_level p s sb =
    let tree = avl_remove sb.tree p in
    record {
      tree = tree;
      best = if points_at p sb.best then extreme s tree else sb.best;
      levels = erase p sb.levels;
    }

-- A write through a pointer to a level.
abbrev pub update_level : ℤ → (Level → Level) → SideBook → SideBook
update_level p f sb = elim (find p sb.levels) [
  | none ↦ sb
  | some lv ↦ record sb { levels = assign p (f lv) sb.levels }
]

-- `unlink_order`: the entry leaves the list of its level.
unfoldable pub unlink : ℕ → List ℕ → List ℕ
unlink id [] = []
unlink id (x ∷ xs) = if x == id then xs else x ∷ unlink id xs

abbrev pub without_order : OrderEntry → Level → Level
without_order oe lv = record {
  order_count = lv.order_count -ℤ pos 1;
  total_quantity = lv.total_quantity -ℤ pos oe.quantity;
  orders = unlink oe.order_id lv.orders;
}

-- The level part of `destroy_order`.
unfoldable pub leave_level : OrderEntry → SideBook → SideBook
leave_level oe sb = elim (find oe.price sb.levels) [
  | none ↦ sb
  | some lv ↦
      let sb' = record sb { levels = assign oe.price (without_order oe lv) sb.levels } in
      if (without_order oe lv).order_count ==ℤ pos 0 then remove_level oe.price oe.side sb' else sb'
]

-- Does a new price beat the best one of the side?
abbrev pub beats : Side → ℤ → Option ℤ → Bool
beats s p none = true
beats s p (some q) = if is_buy s then ltb_ℤ q p else ltb_ℤ p q

-- The level at a price, made if it is not there.
unfoldable pub ensure_level : Side → ℤ → SideBook → SideBook
ensure_level s p sb = elim (find p sb.levels) [
  | none ↦ record {
    tree = avl_insert sb.tree p;
    best = if beats s p sb.best then some p else sb.best;
    levels =
        assign p (record { order_count = pos 0; total_quantity = pos 0; orders = [] }) sb.levels;
  }
  | some lv ↦ sb
]

abbrev pub with_order : OrderEntry → Level → Level
with_order oe lv = record {
  order_count = lv.order_count +ℤ pos 1;
  total_quantity = lv.total_quantity +ℤ pos oe.quantity;
  orders = lv.orders ++ (oe.order_id ∷ []);
}
