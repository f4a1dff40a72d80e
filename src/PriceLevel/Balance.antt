-- ===== src/PriceLevel/Balance.antt =====
-- src/order_book/PriceLevel.cpp keeps the tree balanced, and its height fields right.
use back_tester.Prelude.{
  ℕ, ◌+◌, ◌≤◌, ◌<◌, max, ◌≡◌, refl, ◌⊎◌, true, false, ℤ, pos, negsuc, ◌-ℤ◌, ltb_ℤ, ltb,
  if◌then◌else◌, Bool-cases, inl, inr, arith,
}
use back_tester.PriceLevel.{
  Tree, nil, node, Spine, top, left_of, right_of, height, balance_factor, rotate_right, rotate_left,
  update_height, fix_one, rebalance_up, insert_below, avl_insert,
}

-- Two heights that differ by at most `d`.
abbrev pub Within : ℕ → ℕ → ℕ → Type 0
Within d a b = (a ≤ b + d) × (b ≤ a + d)

abbrev pub IsAvl : Tree → Type 0
IsAvl nil = Unit
IsAvl (node l p h r) =
    IsAvl l × IsAvl r × (h ≡ 1 + max (height l) (height r)) × Within 1 (height l) (height r)

-- The surroundings of a subtree that had height `k`.
abbrev pub IsAvlPath : ℕ → Spine → Type 0
IsAvlPath k top = Unit
IsAvlPath k (left_of p h r up) =
    IsAvl r × (h ≡ 1 + max k (height r)) × Within 1 k (height r) × IsAvlPath h up
IsAvlPath k (right_of l p h up) =
    IsAvl l × (h ≡ 1 + max (height l) k) × Within 1 (height l) k × IsAvlPath h up

-- What `fix_one` makes of two balanced children whose heights differ by at most two: a balanced tree,
-- of the height of the higher child or one more, and of one more if nothing had to be rotated.
abbrev Fixed : Tree → Tree → Tree → Type 0
Fixed l r t =
    IsAvl t
    × (max (height l) (height r) ≤ height t)
    × (height t ≤ 1 + max (height l) (height r))
    × ((1 + max (height l) (height r) ≤ height t)
        ⊎ ((height l ≡ height r + 2) ⊎ (height r ≡ height l + 2)))

-- The tests of `fix_one`, as orders of heights.
left_heavy_test : (a b : ℕ) → ltb_ℤ (pos 1) (pos a -ℤ pos b) ≡ ltb (b + 1) a
unfolding ◌-ℤ◌
left_heavy_test a b = ground arith

right_heavy_test : (a b : ℕ) → ltb_ℤ (pos a -ℤ pos b) (negsuc 0) ≡ ltb (a + 1) b
unfolding ◌-ℤ◌
right_heavy_test a b = ground arith

negative_test : (a b : ℕ) → ltb_ℤ (pos a -ℤ pos b) (pos 0) ≡ ltb a b
unfolding ◌-ℤ◌
negative_test a b = ground arith

positive_test : (a b : ℕ) → ltb_ℤ (pos 0) (pos a -ℤ pos b) ≡ ltb b a
unfolding ◌-ℤ◌
positive_test a b = ground arith

-- The two cases of a left child that is too high.
abbrev fix_left : Tree → ℤ → Tree → Tree
unfolding balance_factor rotate_right rotate_left
fix_left l p r =
    if ltb_ℤ (balance_factor l) (pos 0)
    then rotate_right (update_height (rotate_left l) p r)
    else rotate_right (update_height l p r)

lt_of_test : (a b : ℕ) → ltb a b ≡ true → a < b
lt_of_test a b h = ground arith

le_of_test : (a b : ℕ) → ltb a b ≡ false → b ≤ a
le_of_test a b h = ground arith

not_below_zero : (a : ℕ) → ltb a 0 ≡ false
not_below_zero a = ground arith

update_height-IsAvl :
    (l : Tree) (p : ℤ) (r : Tree)
    → IsAvl l
    → IsAvl r
    → Within 1 (height l) (height r)
    → IsAvl (update_height l p r)
update_height-IsAvl l p r al ar w = (al, ar, refl, w)

fix_left-Fixed :
    (l : Tree) (p : ℤ) (r : Tree)
    → IsAvl l
    → IsAvl r
    → height l ≡ height r + 2
    → Fixed l r (fix_left l p r)
unfolding fix_left
fix_left-Fixed nil p r al ar e = absurd (omega arith)
fix_left-Fixed (node ll lp lh nil) p r al ar e =
    rw (negative_test (height ll) 0, not_below_zero (height ll))
      (
        update_height-IsAvl ll lp (update_height nil p r) al.0
            (update_height-IsAvl nil p r tt ar (omega arith)) (omega arith),
        omega arith,
        omega arith,
        omega arith,
      )
fix_left-Fixed (node ll lp lh (node ml mp mh mr)) p r al ar e =
    rw (negative_test (height ll) mh) (elim (Bool-cases (ltb (height ll) mh)) [
      | inl lower ↦
          let h = lt_of_test (height ll) mh lower in
          rw lower (
            update_height-IsAvl (update_height ll lp ml) mp (update_height mr p r)
                (update_height-IsAvl ll lp ml al.0 al.1.0 (omega arith))
                (update_height-IsAvl mr p r al.1.1 ar (omega arith)) (omega arith),
            omega arith,
            omega arith,
            omega arith,
          )
      | inr higher ↦
          let h = le_of_test (height ll) mh higher in
          rw higher (
            update_height-IsAvl ll lp (update_height (node ml mp mh mr) p r) al.0
                (update_height-IsAvl (node ml mp mh mr) p r al.1 ar (omega arith)) (omega arith),
            omega arith,
            omega arith,
            omega arith,
          )
    ])

-- The two cases of a right child that is too high.
abbrev fix_right : Tree → ℤ → Tree → Tree
unfolding balance_factor rotate_right rotate_left
fix_right l p r =
    if ltb_ℤ (pos 0) (balance_factor r)
    then rotate_left (update_height l p (rotate_right r))
    else rotate_left (update_height l p r)

fix_right-Fixed :
    (l : Tree) (p : ℤ) (r : Tree)
    → IsAvl l
    → IsAvl r
    → height r ≡ height l + 2
    → Fixed l r (fix_right l p r)
unfolding fix_right
fix_right-Fixed l p nil al ar e = absurd (omega arith)
fix_right-Fixed l p (node nil rp rh rr) al ar e =
    rw (positive_test 0 (height rr), not_below_zero (height rr))
      (
        update_height-IsAvl (update_height l p nil) rp rr
            (update_height-IsAvl l p nil al tt (omega arith)) ar.1 (omega arith),
        omega arith,
        omega arith,
        omega arith,
      )
fix_right-Fixed l p (node (node ml mp mh mr) rp rh rr) al ar e =
    rw (positive_test mh (height rr)) (elim (Bool-cases (ltb (height rr) mh)) [
      | inl lower ↦
          let h = lt_of_test (height rr) mh lower in
          rw lower (
            update_height-IsAvl (update_height l p ml) mp (update_height mr rp rr)
                (update_height-IsAvl l p ml al ar.0.0 (omega arith))
                (update_height-IsAvl mr rp rr ar.0.1 ar.1 (omega arith)) (omega arith),
            omega arith,
            omega arith,
            omega arith,
          )
      | inr higher ↦
          let h = le_of_test (height rr) mh higher in
          rw higher (
            update_height-IsAvl (update_height l p (node ml mp mh mr)) rp rr
                (update_height-IsAvl l p (node ml mp mh mr) al ar.0 (omega arith)) ar.1
                (omega arith),
            omega arith,
            omega arith,
            omega arith,
          )
    ])

fix_one-Fixed :
    (l : Tree) (p : ℤ) (h : ℕ) (r : Tree)
    → IsAvl l
    → IsAvl r
    → Within 2 (height l) (height r)
    → Fixed l r (fix_one (node l p h r))
unfolding fix_one fix_left fix_right
fix_one-Fixed l p h r al ar w =
    rw (left_heavy_test (height l) (height r)) (elim (Bool-cases (ltb (height r + 1) (height l))) [
      | inl left ↦
          let e = lt_of_test (height r + 1) (height l) left in
          rw left (fix_left-Fixed l p r al ar (omega arith))
      | inr up ↦
          let e = le_of_test (height r + 1) (height l) up in
          rw (up, right_heavy_test (height l) (height r))
            (elim (Bool-cases (ltb (height l + 1) (height r))) [
              | inl right ↦
                  let d = lt_of_test (height l + 1) (height r) right in
                  rw right (fix_right-Fixed l p r al ar (omega arith))
              | inr even ↦
                  let d = le_of_test (height l + 1) (height r) even in
                  rw even (
                    update_height-IsAvl l p r al ar (omega arith),
                    omega arith,
                    omega arith,
                    omega arith,
                  )
            ])
    ])

-- A balanced subtree whose height is off by at most one from what its surroundings had leaves a
-- balanced tree.
pub rebalance_up-IsAvl :
    (t : Tree) (k : ℕ) (up : Spine)
    → IsAvl t
    → Within 1 (height t) k
    → IsAvlPath k up
    → IsAvl (rebalance_up t up)
unfolding rebalance_up
rebalance_up-IsAvl t k top a w u = a
rebalance_up-IsAvl t k (left_of p h r up) a w (ar, e, d, u) =
    let f = fix_one-Fixed t p h r a ar (omega arith) in
    rebalance_up-IsAvl (fix_one (node t p h r)) h up f.0 (omega arith) u
rebalance_up-IsAvl t k (right_of l p h up) a w (al, e, d, u) =
    let f = fix_one-Fixed l p h t al a (omega arith) in
    rebalance_up-IsAvl (fix_one (node l p h t)) h up f.0 (omega arith) u

insert_below-IsAvl :
    (q : ℤ) (t : Tree) (up : Spine)
    → IsAvl t
    → IsAvlPath (height t) up
    → IsAvl (insert_below q t up)
unfolding insert_below
insert_below-IsAvl q nil up a u =
    rebalance_up-IsAvl (node nil q 1 nil) 0 up (omega arith) (omega arith) u
insert_below-IsAvl q (node l p h r) up a u = elim (Bool-cases (ltb_ℤ q p)) [
  | inl less ↦
      rw (less, insert_below) (insert_below-IsAvl q l (left_of p h r up) a.0 (a.1, a.2, a.3, u))
  | inr more ↦
      rw (more, insert_below) (insert_below-IsAvl q r (right_of l p h up) a.1 (a.0, a.2, a.3, u))
]

-- Inserting a price into a balanced tree with right height fields leaves such a tree.
pub avl_insert-IsAvl : (t : Tree) (q : ℤ) → IsAvl t → IsAvl (avl_insert t q)
unfolding avl_insert
avl_insert-IsAvl t q a = insert_below-IsAvl q t top a tt
