-- ===== src/BookSide/Traversal.antt =====
-- `inorder_successor`, `inorder_predecessor` and the loops of `side_levels_impl` in
-- src/order_book/LimitOrderBook.cpp. A pointer to a node of the tree that can be followed both ways is
-- a `Place`: the node and the spine of its parents.
pub mod Order
use back_tester.Prelude.{
  ℕ, zero, suc, ◌+◌, true, false, Option, none, some, List, [], ◌∷◌, ℤ, ltb_ℤ, ◌==ℤ◌,
}
use back_tester.PriceLevel.{Tree, nil, node, Spine, top, left_of, right_of}

pub record Place : Type 0 where
  pub left : Tree
  pub price : ℤ
  pub height : ℕ
  pub right : Tree
  pub up : Spine

abbrev pub place : Tree → ℤ → ℕ → Tree → Spine → Place
place l p h r up = record { left = l; price = p; height = h; right = r; up = up }

-- `tree_min` and `tree_max` on a subtree, as places.
unfoldable pub leftmost : Tree → Spine → Option Place
leftmost nil up = none
leftmost (node nil p h r) up = some (place nil p h r up)
leftmost (node (node ll lp lh lr) p h r) up = leftmost (node ll lp lh lr) (left_of p h r up)

unfoldable pub rightmost : Tree → Spine → Option Place
rightmost nil up = none
rightmost (node l p h nil) up = some (place l p h nil up)
rightmost (node l p h (node rl rp rh rr)) up = rightmost (node rl rp rh rr) (right_of l p h up)

-- `while (n->parent && n->parent->right_child == n) n = n->parent; return n->parent;`
unfoldable pub above_left : Tree → Spine → Option Place
above_left t top = none
above_left t (right_of l p h up) = above_left (node l p h t) up
above_left t (left_of p h r up) = some (place t p h r up)

-- The same loop of `inorder_predecessor`.
unfoldable pub above_right : Tree → Spine → Option Place
above_right t top = none
above_right t (left_of p h r up) = above_right (node t p h r) up
above_right t (right_of l p h up) = some (place l p h t up)

abbrev pub successor_at : Tree → ℤ → ℕ → Tree → Spine → Option Place
successor_at l p h nil up = above_left (node l p h nil) up
successor_at l p h (node rl rp rh rr) up = leftmost (node rl rp rh rr) (right_of l p h up)

abbrev pub predecessor_at : Tree → ℤ → ℕ → Tree → Spine → Option Place
predecessor_at nil p h r up = above_right (node nil p h r) up
predecessor_at (node ll lp lh lr) p h r up = rightmost (node ll lp lh lr) (left_of p h r up)

unfoldable pub inorder_successor : Place → Option Place
unfolding leftmost above_left
inorder_successor n = successor_at n.left n.price n.height n.right n.up

unfoldable pub inorder_predecessor : Place → Option Place
unfolding rightmost above_right
inorder_predecessor n = predecessor_at n.left n.price n.height n.right n.up

-- The two loops, with what they read of each level. A turn goes on to another node, so that as many
-- turns as the tree has nodes are enough.
unfoldable pub walk_up : (ℤ → ℤ) → ℕ → Option Place → List (ℤ × ℤ)
unfolding inorder_successor
walk_up quantity zero lv = []
walk_up quantity (suc f) none = []
walk_up quantity (suc f) (some lv) =
    (lv.price, quantity lv.price) ∷ walk_up quantity f (inorder_successor lv)

unfoldable pub walk_down : (ℤ → ℤ) → ℕ → Option Place → List (ℤ × ℤ)
unfolding inorder_predecessor
walk_down quantity zero lv = []
walk_down quantity (suc f) none = []
walk_down quantity (suc f) (some lv) =
    (lv.price, quantity lv.price) ∷ walk_down quantity f (inorder_predecessor lv)

abbrev pub size : Tree → ℕ
size nil = 0
size (node l p h r) = suc (size l + size r)

-- The place of the level with this price, which a pointer to the level is.
unfoldable pub place_below : ℤ → Tree → Spine → Option Place
place_below q nil up = none
place_below q (node l p h r) up = elim (q ==ℤ p) [
  | true ↦ some (place l p h r up)
  | false ↦ elim (ltb_ℤ q p) [
    | true ↦ place_below q l (left_of p h r up)
    | false ↦ place_below q r (right_of l p h up)
  ]
]

unfoldable pub place_of : Option ℤ → Tree → Option Place
unfolding place_below
place_of none t = none
place_of (some q) t = place_below q t top
