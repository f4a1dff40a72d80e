-- ===== src/PriceLevel.antt =====
-- src/order_book/PriceLevel.hpp and PriceLevel.cpp: the AVL tree of the price levels of one side.
-- A `PriceLevel*` of a side is its price, for a side has one level for each price; what hangs on a
-- level beside the tree is in `LimitOrderBook`. A chain of `parent` pointers is a `Spine`: what lies
-- around a subtree, the nearest parent first.
pub mod Inorder
pub mod Balance
pub mod Remove
pub mod RemoveBalance
pub mod Height
use back_tester.Prelude.{
  ℕ, ◌+◌, max, Bool, true, false, Option, none, some, ℤ, pos, negsuc, ◌-ℤ◌, ltb_ℤ, ◌==ℤ◌,
  if◌then◌else◌,
}

pub data Tree : Type 0 where
  nil : Tree
  node : (left : Tree) → (price : ℤ) → (height : ℕ) → (right : Tree) → Tree

pub data Spine : Type 0 where
  top : Spine
  left_of : (price : ℤ) → (height : ℕ) → (right : Tree) → Spine → Spine
  right_of : (left : Tree) → (price : ℤ) → (height : ℕ) → Spine → Spine

abbrev pub height : Tree → ℕ
height nil = 0
height (node l p h r) = h

-- `update_height` on the node with these children; the height that it had is overwritten.
abbrev pub update_height : Tree → ℤ → Tree → Tree
update_height l p r = node l p (1 + max (height l) (height r)) r

abbrev pub balance_of : Tree → Tree → ℤ
balance_of l r = pos (height l) -ℤ pos (height r)

unfoldable pub balance_factor : Tree → ℤ
balance_factor nil = pos 0
balance_factor (node l p h r) = balance_of l r

-- A rotation towards the missing child would follow a null pointer; `fix_one` makes none on a tree
-- whose heights are right, and here it leaves the tree.
unfoldable pub rotate_right : Tree → Tree
rotate_right (node (node ll lp lh lr) p h r) = update_height ll lp (update_height lr p r)
rotate_right t = t

unfoldable pub rotate_left : Tree → Tree
rotate_left (node l p h (node rl rp rh rr)) = update_height (update_height l p rl) rp rr
rotate_left t = t

unfoldable pub fix_one : Tree → Tree
unfolding balance_factor rotate_right rotate_left ◌-ℤ◌
fix_one nil = nil
fix_one (node l p h r) =
    if ltb_ℤ (pos 1) (balance_of l r)
    then (if ltb_ℤ (balance_factor l) (pos 0)
        then rotate_right (update_height (rotate_left l) p r)
        else rotate_right (update_height l p r))
    else (if ltb_ℤ (balance_of l r) (negsuc 0)
        then (if ltb_ℤ (pos 0) (balance_factor r)
            then rotate_left (update_height l p (rotate_right r))
            else rotate_left (update_height l p r))
        else update_height l p r)

-- The subtree is put in its place, and every node above it is fixed on the way to the root. The loop
-- `rebalance_up(start, root)` is this from the child of `start`, whose place has changed.
unfoldable pub rebalance_up : Tree → Spine → Tree
rebalance_up t top = t
rebalance_up t (left_of p h r up) = rebalance_up (fix_one (node t p h r)) up
rebalance_up t (right_of l p h up) = rebalance_up (fix_one (node l p h t)) up

-- The descent of `avl_insert` to the free place, and what follows it.
unfoldable pub insert_below : ℤ → Tree → Spine → Tree
unfolding rebalance_up fix_one
insert_below q nil up = rebalance_up (node nil q 1 nil) up
insert_below q (node l p h r) up = elim (ltb_ℤ q p) [
  | true ↦ insert_below q l (left_of p h r up)
  | false ↦ insert_below q r (right_of l p h up)
]

unfoldable pub avl_insert : Tree → ℤ → Tree
unfolding insert_below
avl_insert root q = insert_below q root top

-- The price of the in-order successor in a right subtree: its left-most node.
unfoldable pub min_price : Tree → ℤ → ℤ
min_price nil d = d
min_price (node l p h r) d = min_price l p

-- The left-most node gives its place to its right child.
unfoldable pub remove_min : Tree → Spine → Tree
unfolding rebalance_up fix_one
remove_min nil up = rebalance_up nil up
remove_min (node nil p h r) up = rebalance_up r up
remove_min (node (node ll lp lh lr) p h r) up = remove_min (node ll lp lh lr) (left_of p h r up)

-- `avl_remove` at the place of the node. With two children the successor takes the place and the
-- height of the node, and the node, now where the successor was, is unlinked there.
unfoldable pub remove_here : Tree → ℤ → ℕ → Tree → Spine → Tree
unfolding remove_min min_price
remove_here nil p h nil up = rebalance_up nil up
remove_here nil p h (node rl rp rh rr) up = rebalance_up (node rl rp rh rr) up
remove_here (node ll lp lh lr) p h nil up = rebalance_up (node ll lp lh lr) up
remove_here (node ll lp lh lr) p h (node rl rp rh rr) up =
    let succ = min_price (node rl rp rh rr) p in
    remove_min (node rl rp rh rr) (right_of (node ll lp lh lr) succ h up)

-- The node is handed to `avl_remove` by its pointer; here its place is found by its price.
unfoldable pub remove_below : ℤ → Tree → Spine → Tree
unfolding remove_here
remove_below q nil up = rebalance_up nil up
remove_below q (node l p h r) up = elim (q ==ℤ p) [
  | true ↦ remove_here l p h r up
  | false ↦ elim (ltb_ℤ q p) [
    | true ↦ remove_below q l (left_of p h r up)
    | false ↦ remove_below q r (right_of l p h up)
  ]
]

unfoldable pub avl_remove : Tree → ℤ → Tree
unfolding remove_below
avl_remove root q = remove_below q root top
