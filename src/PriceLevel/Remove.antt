-- ===== src/PriceLevel/Remove.antt =====
-- Removal in src/order_book/PriceLevel.cpp takes one price out of the order and moves no other.
use back_tester.Prelude.{
  ℕ, ◌≡◌, refl, ap, ◌∙◌, true, false, List, [], ◌∷◌, ◌++◌, append-nil, ℤ, ltb_ℤ, ◌==ℤ◌, ◌<ℤ◌, All,
  All-imp, if◌then◌else◌, Bool-cases, inl, inr, arith,
}
use back_tester.PriceLevel.{
  Tree, nil, node, Spine, top, left_of, right_of, remove_min, min_price, remove_here, remove_below,
  avl_remove,
}
use back_tester.PriceLevel.Inorder.{
  inorder, inorder_around, IsAscending, IsAscending-of_append, inorder-rebalance_up,
}

abbrev pub tail : List ℤ → List ℤ
tail [] = []
tail (x ∷ xs) = xs

-- `q` without its entry.
unfoldable pub drop_price : ℤ → List ℤ → List ℤ
drop_price q [] = []
drop_price q (x ∷ xs) = if q ==ℤ x then xs else x ∷ drop_price q xs

tail-append :
    (xs ys : List ℤ) (p x : ℤ) (zs : List ℤ) → xs ≡ x ∷ zs → tail xs ++ ys ≡ tail (xs ++ ys)
tail-append xs ys p x zs e = rw e

-- The left-most price is the first in order.
pub min_price-first :
    (l : Tree) (p : ℤ) (h : ℕ) (r : Tree) (d : ℤ)
    → inorder (node l p h r) ≡ min_price (node l p h r) d ∷ tail (inorder (node l p h r))
unfolding min_price
min_price-first nil p h r d = refl
min_price-first (node ll lp lh lr) p h r d = rw (min_price-first ll lp lh lr p)

inorder-remove_min :
    (l : Tree) (p : ℤ) (h : ℕ) (r : Tree) (up : Spine)
    → inorder (remove_min (node l p h r) up) ≡ inorder_around up (tail (inorder (node l p h r)))
unfolding remove_min
inorder-remove_min nil p h r up = inorder-rebalance_up r up
inorder-remove_min (node ll lp lh lr) p h r up =
    inorder-remove_min ll lp lh lr (left_of p h r up)
    ∙ ap (inorder_around up) (
        tail-append (inorder (node ll lp lh lr)) (p ∷ inorder r) p (min_price (node ll lp lh lr) p)
          (tail (inorder (node ll lp lh lr))) (min_price-first ll lp lh lr p))

inorder-remove_here :
    (l : Tree) (p : ℤ) (h : ℕ) (r : Tree) (up : Spine)
    → inorder (remove_here l p h r up) ≡ inorder_around up (inorder l ++ inorder r)
unfolding remove_here
inorder-remove_here nil p h nil up = inorder-rebalance_up nil up
inorder-remove_here nil p h (node rl rp rh rr) up = inorder-rebalance_up (node rl rp rh rr) up
inorder-remove_here (node ll lp lh lr) p h nil up =
    inorder-rebalance_up (node ll lp lh lr) up ∙ ap (inorder_around up) (rw append-nil)
inorder-remove_here (node ll lp lh lr) p h (node rl rp rh rr) up =
    let succ = min_price (node rl rp rh rr) p in
    inorder-remove_min rl rp rh rr (right_of (node ll lp lh lr) succ h up)
    ∙ ap (λ xs. inorder_around up (inorder (node ll lp lh lr) ++ xs))
        (rw (← min_price-first rl rp rh rr p))

drop_price-above : (q : ℤ) (xs : List ℤ) → All (λ x. q <ℤ x) xs → drop_price q xs ≡ xs
unfolding drop_price
drop_price-above q [] a = refl
drop_price-above q (x ∷ xs) a = ground (arith, drop_price-above q xs a.1)

drop_price-left :
    (q : ℤ) (xs ys : List ℤ)
    → All (λ y. q <ℤ y) ys
    → drop_price q (xs ++ ys) ≡ drop_price q xs ++ ys
unfolding drop_price
drop_price-left q [] ys a = drop_price-above q ys a
drop_price-left q (x ∷ xs) ys a = ground (arith, drop_price-left q xs ys a)

drop_price-right :
    (q p : ℤ) (xs ys : List ℤ)
    → All (λ x. x <ℤ p) xs
    → ltb_ℤ q p ≡ false
    → drop_price q (xs ++ ys) ≡ xs ++ drop_price q ys
unfolding drop_price
drop_price-right q p [] ys a h = refl
drop_price-right q p (x ∷ xs) ys a h = ground (arith, drop_price-right q p xs ys a.1 h)

drop_price-at : (q p : ℤ) (ys : List ℤ) → (q ==ℤ p) ≡ true → drop_price q (p ∷ ys) ≡ ys
unfolding drop_price
drop_price-at q p ys h = rw h

drop_price-past :
    (q p : ℤ) (ys : List ℤ) → (q ==ℤ p) ≡ false → drop_price q (p ∷ ys) ≡ p ∷ drop_price q ys
unfolding drop_price
drop_price-past q p ys h = rw h

not_lt_of_eq : (q p : ℤ) → (q ==ℤ p) ≡ true → ltb_ℤ q p ≡ false
not_lt_of_eq q p h = ground arith

lt_of_test : (q p : ℤ) → ltb_ℤ q p ≡ true → q <ℤ p
lt_of_test q p h = ground arith

inorder-remove_below :
    (q : ℤ) (t : Tree) (up : Spine)
    → IsAscending (inorder t)
    → inorder (remove_below q t up) ≡ inorder_around up (drop_price q (inorder t))
unfolding remove_below
inorder-remove_below q nil up a = unfold drop_price in inorder-rebalance_up nil up
inorder-remove_below q (node l p h r) up a =
    let (below, above, al, ar) = IsAscending-of_append (inorder l) p (inorder r) a in
    elim (Bool-cases (q ==ℤ p)) [
      | inl here ↦
          rw
            (
              here,
              remove_below,
              drop_price-right q p (inorder l) (p ∷ inorder r) below (not_lt_of_eq q p here),
              drop_price-at q p (inorder r) here,
            )
            (inorder-remove_here l p h r up)
      | inr apart ↦ elim (Bool-cases (ltb_ℤ q p)) [
        | inl less ↦
            rw
              (
                apart,
                less,
                remove_below,
                drop_price-left q (inorder l) (p ∷ inorder r) (
                  lt_of_test q p less,
                  All-imp (λ y b. omega (arith, lt_of_test q p less)) (inorder r) above,
                ),
              )
              (inorder-remove_below q l (left_of p h r up) al)
        | inr more ↦
            rw
              (
                apart,
                more,
                remove_below,
                drop_price-right q p (inorder l) (p ∷ inorder r) below more,
                drop_price-past q p (inorder r) apart,
              )
              (inorder-remove_below q r (right_of l p h up) ar)
      ]
    ]

-- Removing a price from a tree of ascending prices takes out its entry, if it has one, and leaves the
-- others in their order.
pub inorder-avl_remove :
    (t : Tree) (q : ℤ)
    → IsAscending (inorder t)
    → inorder (avl_remove t q) ≡ drop_price q (inorder t)
unfolding avl_remove
inorder-avl_remove t q a = inorder-remove_below q t top a
