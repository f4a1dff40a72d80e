-- ===== src/BookSide/Extremes.antt =====
-- The best pointer of a side: the first or the last price of its tree, across the changes that an
-- insertion and a removal make (`tree_max`, `tree_min` and `best_for` of
-- src/order_book/LimitOrderBook.cpp).
use back_tester.Prelude.{
  ◌≡◌, refl, sym, ap, ◌∙◌, false, Option, none, some, List, [], ◌∷◌, ◌++◌, ℤ, ltb_ℤ, ◌==ℤ◌, ==ℤ_iff,
  if◌then◌else◌, arith,
}
use back_tester.Event.{Side, is_buy}
use back_tester.PriceLevel.{Tree, nil, node}
use back_tester.PriceLevel.Inorder.{inorder, IsAscending, insert_sorted}
use back_tester.PriceLevel.Remove.{drop_price}
use back_tester.BookSide.{tree_max, tree_min, extreme, beats, points_at}

abbrev pub first : List ℤ → Option ℤ
first [] = none
first (x ∷ xs) = some x

-- The last of `x ∷ xs`.
abbrev pub last_from : ℤ → List ℤ → ℤ
last_from x [] = x
last_from x (y ∷ ys) = last_from y ys

abbrev pub last : List ℤ → Option ℤ
last [] = none
last (x ∷ xs) = some (last_from x xs)

-- The price that the best pointer of a side should have.
abbrev pub best_of : Side → List ℤ → Option ℤ
best_of s xs = if is_buy s then last xs else first xs

first-insert_sorted :
    (q : ℤ) (xs : List ℤ)
    → first (insert_sorted q xs) ≡ (if beats Side.sell q (first xs) then some q else first xs)
unfolding insert_sorted
first-insert_sorted q [] = refl
first-insert_sorted q (x ∷ xs) = ground arith

last_from-le : (x : ℤ) (xs : List ℤ) → IsAscending (x ∷ xs) → ltb_ℤ (last_from x xs) x ≡ false
last_from-le x [] a = ground arith
last_from-le x (y ∷ ys) a = ground (arith, last_from-le y ys a.1)

last_from-insert_sorted :
    (q x : ℤ) (xs : List ℤ)
    → IsAscending (x ∷ xs)
    → ltb_ℤ q x ≡ false
    → last_from x (insert_sorted q xs) ≡ (if ltb_ℤ (last_from x xs) q then q else last_from x xs)
unfolding insert_sorted
last_from-insert_sorted q x [] a h = ground arith
last_from-insert_sorted q x (y ∷ ys) a h =
    ground (arith, last_from-insert_sorted q y ys a.1, last_from-le y ys a.1)

last-insert_sorted :
    (q : ℤ) (xs : List ℤ)
    → IsAscending xs
    → last (insert_sorted q xs) ≡ (if beats Side.buy q (last xs) then some q else last xs)
unfolding insert_sorted
last-insert_sorted q [] a = refl
last-insert_sorted q (x ∷ xs) a =
    ground (arith, last_from-insert_sorted q x xs a, last_from-le x xs a)

first-drop_price :
    (q : ℤ) (xs : List ℤ) → points_at q (first xs) ≡ false → first (drop_price q xs) ≡ first xs
unfolding drop_price
first-drop_price q [] h = refl
first-drop_price q (x ∷ xs) h = ground (arith, ==ℤ_iff x q, ==ℤ_iff q x)

last_from-drop_price :
    (q x : ℤ) (xs : List ℤ)
    → (last_from x xs ==ℤ q) ≡ false
    → last_from x (drop_price q xs) ≡ last_from x xs
unfolding drop_price
last_from-drop_price q x [] h = refl
last_from-drop_price q x (y ∷ []) h = ground (arith, ==ℤ_iff y q, ==ℤ_iff q y)
last_from-drop_price q x (y ∷ z ∷ zs) h = ground (arith, last_from-drop_price q y (z ∷ zs) h)

last-drop_price :
    (q : ℤ) (xs : List ℤ) → points_at q (last xs) ≡ false → last (drop_price q xs) ≡ last xs
unfolding drop_price
last-drop_price q [] h = refl
last-drop_price q (x ∷ []) h = ground (arith, ==ℤ_iff x q, ==ℤ_iff q x)
last-drop_price q (x ∷ y ∷ ys) h = ground (arith, last_from-drop_price q x (y ∷ ys) h)

-- Inserting a price moves the best one as `add_order` does.
pub best_of-insert_sorted :
    (s : Side) (q : ℤ) (xs : List ℤ)
    → IsAscending xs
    → best_of s (insert_sorted q xs) ≡ (if beats s q (best_of s xs) then some q else best_of s xs)
best_of-insert_sorted Side.buy q xs a = last-insert_sorted q xs a
best_of-insert_sorted Side.sell q xs a = first-insert_sorted q xs
best_of-insert_sorted Side.none q [] a = first-insert_sorted q []
best_of-insert_sorted Side.none q (x ∷ xs) a = first-insert_sorted q (x ∷ xs)

-- Removing a price that is not the best leaves the best.
pub best_of-drop_price :
    (s : Side) (q : ℤ) (xs : List ℤ)
    → points_at q (best_of s xs) ≡ false
    → best_of s (drop_price q xs) ≡ best_of s xs
best_of-drop_price Side.buy q xs h = last-drop_price q xs h
best_of-drop_price s q xs h = first-drop_price q xs h

last-append : (xs : List ℤ) (p : ℤ) (ys : List ℤ) → last (xs ++ (p ∷ ys)) ≡ some (last_from p ys)
last-append [] p ys = refl
last-append (x ∷ []) p ys = refl
last-append (x ∷ y ∷ zs) p ys = last-append (y ∷ zs) p ys

last_from-append :
    (x : ℤ) (xs : List ℤ) (p : ℤ) (ys : List ℤ) → last_from x (xs ++ (p ∷ ys)) ≡ last_from p ys
last_from-append x [] p ys = refl
last_from-append x (y ∷ zs) p ys = last_from-append y zs p ys

first-append :
    (xs : List ℤ) (p : ℤ) (ys zs : List ℤ) → first ((xs ++ (p ∷ ys)) ++ zs) ≡ first (xs ++ (p ∷ ys))
first-append [] p ys zs = refl
first-append (x ∷ xs) p ys zs = refl

-- `tree_max` and `tree_min` are the last and the first price in order.
tree_max-last : (t : Tree) → tree_max t ≡ last (inorder t)
unfolding tree_max
tree_max-last nil = refl
tree_max-last (node l p h nil) = sym (last-append (inorder l) p [])
tree_max-last (node l p h (node rl rp rh rr)) =
    tree_max-last (node rl rp rh rr)
    ∙ last-append (inorder rl) rp (inorder rr)
    ∙ sym (
        last-append (inorder l) p (inorder (node rl rp rh rr))
        ∙ ap some (last_from-append p (inorder rl) rp (inorder rr)))

tree_min-first : (t : Tree) → tree_min t ≡ first (inorder t)
unfolding tree_min
tree_min-first nil = refl
tree_min-first (node nil p h r) = refl
tree_min-first (node (node ll lp lh lr) p h r) =
    tree_min-first (node ll lp lh lr)
    ∙ sym (first-append (inorder ll) lp (inorder lr) (p ∷ inorder r))

-- A recomputed best pointer is the best price in order.
pub extreme-best_of : (s : Side) (t : Tree) → extreme s t ≡ best_of s (inorder t)
unfolding extreme
extreme-best_of Side.buy t = tree_max-last t
extreme-best_of s t = tree_min-first t
