-- ===== src/PriceLevel/RemoveBalance.antt =====
-- Removal in src/order_book/PriceLevel.cpp keeps the tree balanced.
use back_tester.Prelude.{ℕ, ℤ, ltb_ℤ, ◌==ℤ◌, Bool-cases, inl, inr, arith}
use back_tester.PriceLevel.{
  Tree, nil, node, Spine, top, left_of, right_of, height, remove_min, remove_here, remove_below,
  avl_remove, min_price,
}
use back_tester.PriceLevel.Balance.{IsAvl, IsAvlPath, rebalance_up-IsAvl}

remove_min-IsAvl :
    (l : Tree) (p : ℤ) (h : ℕ) (r : Tree) (up : Spine)
    → IsAvl (node l p h r)
    → IsAvlPath h up
    → IsAvl (remove_min (node l p h r) up)
unfolding remove_min
remove_min-IsAvl nil p h r up a u = rebalance_up-IsAvl r h up a.1 (omega arith) u
remove_min-IsAvl (node ll lp lh lr) p h r up a u =
    remove_min-IsAvl ll lp lh lr (left_of p h r up) a.0 (a.1, a.2, a.3, u)

remove_here-IsAvl :
    (l : Tree) (p : ℤ) (h : ℕ) (r : Tree) (up : Spine)
    → IsAvl (node l p h r)
    → IsAvlPath h up
    → IsAvl (remove_here l p h r up)
unfolding remove_here
remove_here-IsAvl nil p h nil up a u = rebalance_up-IsAvl nil h up tt (omega arith) u
remove_here-IsAvl nil p h (node rl rp rh rr) up a u =
    rebalance_up-IsAvl (node rl rp rh rr) h up a.1 (omega arith) u
remove_here-IsAvl (node ll lp lh lr) p h nil up a u =
    rebalance_up-IsAvl (node ll lp lh lr) h up a.0 (omega arith) u
remove_here-IsAvl (node ll lp lh lr) p h (node rl rp rh rr) up a u =
    let succ = min_price (node rl rp rh rr) p in
    remove_min-IsAvl rl rp rh rr (right_of (node ll lp lh lr) succ h up) a.1 (a.0, a.2, a.3, u)

remove_below-IsAvl :
    (q : ℤ) (t : Tree) (up : Spine)
    → IsAvl t
    → IsAvlPath (height t) up
    → IsAvl (remove_below q t up)
unfolding remove_below
remove_below-IsAvl q nil up a u = rebalance_up-IsAvl nil 0 up tt (omega arith) u
remove_below-IsAvl q (node l p h r) up a u = elim (Bool-cases (q ==ℤ p)) [
  | inl here ↦ rw (here, remove_below) (remove_here-IsAvl l p h r up a u)
  | inr apart ↦ elim (Bool-cases (ltb_ℤ q p)) [
    | inl less ↦
        rw (apart, less, remove_below)
          (remove_below-IsAvl q l (left_of p h r up) a.0 (a.1, a.2, a.3, u))
    | inr more ↦
        rw (apart, more, remove_below)
          (remove_below-IsAvl q r (right_of l p h up) a.1 (a.0, a.2, a.3, u))
  ]
]

-- Removing a price from a balanced tree with right height fields leaves such a tree.
pub avl_remove-IsAvl : (t : Tree) (q : ℤ) → IsAvl t → IsAvl (avl_remove t q)
unfolding avl_remove
avl_remove-IsAvl t q a = remove_below-IsAvl q t top a tt
