-- ===== src/PriceLevel/Inorder.antt =====
-- The prices of a tree in order, and what src/order_book/PriceLevel.cpp does to them on an insertion.
use back_tester.Prelude.{
  ◌≡◌, refl, ap, ◌∙◌, true, false, List, [], ◌∷◌, ◌++◌, append_assoc, ℤ, ltb_ℤ, ◌<ℤ◌, All,
  if◌then◌else◌, Bool-cases, inl, inr, arith,
}
use back_tester.PriceLevel.{
  Tree, nil, node, Spine, top, left_of, right_of, rotate_left, rotate_right, fix_one, rebalance_up,
  insert_below, avl_insert, update_height,
}

abbrev pub inorder : Tree → List ℤ
inorder nil = []
inorder (node l p h r) = inorder l ++ (p ∷ inorder r)

-- What stands around a subtree, with `xs` in the place of the subtree's prices.
abbrev pub inorder_around : Spine → List ℤ → List ℤ
inorder_around top xs = xs
inorder_around (left_of p h r up) xs = inorder_around up (xs ++ (p ∷ inorder r))
inorder_around (right_of l p h up) xs = inorder_around up (inorder l ++ (p ∷ xs))

-- Strictly ascending, as the prices of a side are.
abbrev pub IsAscending : List ℤ → Type 0
IsAscending [] = Unit
IsAscending (x ∷ xs) = All (λ y. x <ℤ y) xs × IsAscending xs

pub All-of_append {κ} : (P : ℤ → Type κ) (xs ys : List ℤ) → All P (xs ++ ys) → All P xs × All P ys
All-of_append P [] ys a = (tt, a)
All-of_append P (x ∷ xs) ys a = let r = All-of_append P xs ys a.1 in ((a.0, r.0), r.1)

pub IsAscending-of_append :
    (xs : List ℤ) (p : ℤ) (ys : List ℤ)
    → IsAscending (xs ++ (p ∷ ys))
    → All (λ x. x <ℤ p) xs × All (λ y. p <ℤ y) ys × IsAscending xs × IsAscending ys
IsAscending-of_append [] p ys a = (tt, a.0, tt, a.1)
IsAscending-of_append (x ∷ xs) p ys a =
    let r = IsAscending-of_append xs p ys a.1 in
    let s = All-of_append (λ y. x <ℤ y) xs (p ∷ ys) a.0 in ((s.1.0, r.0), r.1, (s.0, r.2), r.3)

inorder-rotate_right : (t : Tree) → inorder (rotate_right t) ≡ inorder t
unfolding rotate_right
inorder-rotate_right nil = refl
inorder-rotate_right (node nil p h r) = refl
inorder-rotate_right (node (node ll lp lh lr) p h r) = rw append_assoc

inorder-rotate_left : (t : Tree) → inorder (rotate_left t) ≡ inorder t
unfolding rotate_left
inorder-rotate_left nil = refl
inorder-rotate_left (node l p h nil) = refl
inorder-rotate_left (node l p h (node rl rp rh rr)) = rw append_assoc

-- Balancing moves no price.
inorder-fix_one : (t : Tree) → inorder (fix_one t) ≡ inorder t
unfolding fix_one
inorder-fix_one nil = refl
inorder-fix_one (node l p h r) = ground (
  arith,
  inorder-rotate_left l,
  inorder-rotate_right r,
  inorder-rotate_right (update_height l p r),
  inorder-rotate_left (update_height l p r),
  inorder-rotate_right (update_height (rotate_left l) p r),
  inorder-rotate_left (update_height l p (rotate_right r)),
)

pub inorder-rebalance_up :
    (t : Tree) (up : Spine) → inorder (rebalance_up t up) ≡ inorder_around up (inorder t)
unfolding rebalance_up
inorder-rebalance_up t top = refl
inorder-rebalance_up t (left_of p h r up) =
    inorder-rebalance_up (fix_one (node t p h r)) up
    ∙ ap (inorder_around up) (inorder-fix_one (node t p h r))
inorder-rebalance_up t (right_of l p h up) =
    inorder-rebalance_up (fix_one (node l p h t)) up
    ∙ ap (inorder_around up) (inorder-fix_one (node l p h t))

-- `q` stands before the first price that is greater.
unfoldable pub insert_sorted : ℤ → List ℤ → List ℤ
insert_sorted q [] = q ∷ []
insert_sorted q (x ∷ xs) = if ltb_ℤ q x then q ∷ x ∷ xs else x ∷ insert_sorted q xs

insert_sorted-left :
    (q p : ℤ) (xs ys : List ℤ)
    → ltb_ℤ q p ≡ true
    → insert_sorted q (xs ++ (p ∷ ys)) ≡ insert_sorted q xs ++ (p ∷ ys)
unfolding insert_sorted
insert_sorted-left q p [] ys h = rw h
insert_sorted-left q p (x ∷ xs) ys h = ground (arith, insert_sorted-left q p xs ys h)

insert_sorted-right :
    (q p : ℤ) (xs ys : List ℤ)
    → All (λ x. x <ℤ p) xs
    → ltb_ℤ q p ≡ false
    → insert_sorted q (xs ++ (p ∷ ys)) ≡ xs ++ (p ∷ insert_sorted q ys)
unfolding insert_sorted
insert_sorted-right q p [] ys a h = rw h
insert_sorted-right q p (x ∷ xs) ys a h = ground (arith, insert_sorted-right q p xs ys a.1 h)

inorder-insert_below :
    (q : ℤ) (t : Tree) (up : Spine)
    → IsAscending (inorder t)
    → inorder (insert_below q t up) ≡ inorder_around up (insert_sorted q (inorder t))
unfolding insert_below insert_sorted
inorder-insert_below q nil up a = inorder-rebalance_up (node nil q 1 nil) up
inorder-insert_below q (node l p h r) up a =
    let s = IsAscending-of_append (inorder l) p (inorder r) a in
    elim (Bool-cases (ltb_ℤ q p)) [
      | inl less ↦
          rw (less, insert_below, insert_sorted-left q p (inorder l) (inorder r) less)
            (inorder-insert_below q l (left_of p h r up) s.2)
      | inr more ↦
          rw (more, insert_below, insert_sorted-right q p (inorder l) (inorder r) s.0 more)
            (inorder-insert_below q r (right_of l p h up) s.3)
    ]

-- Inserting a price into a tree of ascending prices puts it in its place among them in order, and
-- moves no other.
pub inorder-avl_insert :
    (t : Tree) (q : ℤ)
    → IsAscending (inorder t)
    → inorder (avl_insert t q) ≡ insert_sorted q (inorder t)
unfolding avl_insert
inorder-avl_insert t q a = inorder-insert_below q t top a
