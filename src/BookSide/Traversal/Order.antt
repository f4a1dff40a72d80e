-- ===== src/BookSide/Traversal/Order.antt =====
-- The loops of `side_levels_impl` in src/order_book/LimitOrderBook.cpp pass the nodes of a tree in the
-- order of their prices.
use back_tester.Prelude.{
  ℕ, zero, suc, ◌≤◌, ◌≡◌, refl, sym, ap, ◌∙◌, true, false, Option, none, some, List, [], ◌∷◌, ◌++◌,
  map, append-nil, append_assoc, length, length-append, ℤ, ltb_ℤ, ◌<ℤ◌, ◌==ℤ◌, ==ℤ_iff, All, arith,
}
use back_tester.PriceLevel.{Tree, nil, node, Spine, top, left_of, right_of}
use back_tester.PriceLevel.Inorder.{inorder, IsAscending, IsAscending-of_append, All-of_append}
use back_tester.BookSide.{tree_max, tree_min}
use back_tester.BookSide.Traversal.{
  Place, leftmost, rightmost, above_left, above_right, successor_at, predecessor_at,
  inorder_successor, inorder_predecessor, walk_up, walk_down, size, place_below, place_of,
}

-- The prices after a subtree in order, and those before it, the nearest first.
abbrev after : Spine → List ℤ
after top = []
after (left_of p h r up) = p ∷ (inorder r ++ after up)
after (right_of l p h up) = after up

-- The prices from the greatest on.
abbrev pub descending : Tree → List ℤ
descending nil = []
descending (node l p h r) = descending r ++ (p ∷ descending l)

abbrev before : Spine → List ℤ
before top = []
before (left_of p h r up) = before up
before (right_of l p h up) = p ∷ (descending l ++ before up)

abbrev upwards : Option Place → List ℤ
upwards none = []
upwards (some n) = n.price ∷ (inorder n.right ++ after n.up)

abbrev downwards : Option Place → List ℤ
downwards none = []
downwards (some n) = n.price ∷ (descending n.left ++ before n.up)

upwards-leftmost :
    (l : Tree) (p : ℤ) (h : ℕ) (r : Tree) (up : Spine)
    → upwards (leftmost (node l p h r) up) ≡ inorder (node l p h r) ++ after up
unfolding leftmost
upwards-leftmost nil p h r up = refl
upwards-leftmost (node ll lp lh lr) p h r up =
    upwards-leftmost ll lp lh lr (left_of p h r up)
    ∙ sym (append_assoc (inorder (node ll lp lh lr)) (p ∷ inorder r) (after up))

downwards-rightmost :
    (l : Tree) (p : ℤ) (h : ℕ) (r : Tree) (up : Spine)
    → downwards (rightmost (node l p h r) up) ≡ descending (node l p h r) ++ before up
unfolding rightmost
downwards-rightmost l p h nil up = refl
downwards-rightmost l p h (node rl rp rh rr) up =
    downwards-rightmost rl rp rh rr (right_of l p h up)
    ∙ sym (append_assoc (descending (node rl rp rh rr)) (p ∷ descending l) (before up))

upwards-above_left : (t : Tree) (up : Spine) → upwards (above_left t up) ≡ after up
unfolding above_left
upwards-above_left t top = refl
upwards-above_left t (left_of p h r up) = refl
upwards-above_left t (right_of l p h up) = upwards-above_left (node l p h t) up

downwards-above_right : (t : Tree) (up : Spine) → downwards (above_right t up) ≡ before up
unfolding above_right
downwards-above_right t top = refl
downwards-above_right t (left_of p h r up) = downwards-above_right (node t p h r) up
downwards-above_right t (right_of l p h up) = refl

upwards-successor_at :
    (l : Tree) (p : ℤ) (h : ℕ) (r : Tree) (up : Spine)
    → upwards (successor_at l p h r up) ≡ inorder r ++ after up
upwards-successor_at l p h nil up = upwards-above_left (node l p h nil) up
upwards-successor_at l p h (node rl rp rh rr) up = upwards-leftmost rl rp rh rr (right_of l p h up)

downwards-predecessor_at :
    (l : Tree) (p : ℤ) (h : ℕ) (r : Tree) (up : Spine)
    → downwards (predecessor_at l p h r up) ≡ descending l ++ before up
downwards-predecessor_at nil p h r up = downwards-above_right (node nil p h r) up
downwards-predecessor_at (node ll lp lh lr) p h r up =
    downwards-rightmost ll lp lh lr (left_of p h r up)

-- The pairs that the loops emit for these prices.
abbrev pub levels_of : (ℤ → ℤ) → List ℤ → List (ℤ × ℤ)
levels_of quantity ps = map (λ p. (p, quantity p)) ps

walk_up-upwards :
    (quantity : ℤ → ℤ) (f : ℕ) (lv : Option Place)
    → length (upwards lv) ≤ f
    → walk_up quantity f lv ≡ levels_of quantity (upwards lv)
unfolding walk_up inorder_successor
walk_up-upwards quantity zero none h = refl
walk_up-upwards quantity zero (some n) h = absurd (omega arith)
walk_up-upwards quantity (suc f) none h = refl
walk_up-upwards quantity (suc f) (some n) h =
    let e = upwards-successor_at n.left n.price n.height n.right n.up in
    ap (λ r. (n.price, quantity n.price) ∷ r)
      (walk_up-upwards quantity f (inorder_successor n) (omega (arith, ap length e))
        ∙ ap (levels_of quantity) e)

walk_down-downwards :
    (quantity : ℤ → ℤ) (f : ℕ) (lv : Option Place)
    → length (downwards lv) ≤ f
    → walk_down quantity f lv ≡ levels_of quantity (downwards lv)
unfolding walk_down inorder_predecessor
walk_down-downwards quantity zero none h = refl
walk_down-downwards quantity zero (some n) h = absurd (omega arith)
walk_down-downwards quantity (suc f) none h = refl
walk_down-downwards quantity (suc f) (some n) h =
    let e = downwards-predecessor_at n.left n.price n.height n.right n.up in
    ap (λ r. (n.price, quantity n.price) ∷ r)
      (walk_down-downwards quantity f (inorder_predecessor n) (omega (arith, ap length e))
        ∙ ap (levels_of quantity) e)

length-inorder : (t : Tree) → length (inorder t) ≡ size t
length-inorder nil = refl
length-inorder (node l p h r) =
    length-append (inorder l) (p ∷ inorder r) ∙ omega (arith, length-inorder l, length-inorder r)

length-descending : (t : Tree) → length (descending t) ≡ size t
length-descending nil = refl
length-descending (node l p h r) =
    length-append (descending r) (p ∷ descending l)
    ∙ omega (arith, length-descending l, length-descending r)

tree_min-lt :
    (l : Tree) (p : ℤ) (h : ℕ) (r : Tree) {m : ℤ} (q : ℤ)
    → All (λ x. x <ℤ q) (inorder (node l p h r))
    → tree_min (node l p h r) ≡ some m
    → m <ℤ q
unfolding tree_min
tree_min-lt nil p h r q a e = ground arith
tree_min-lt (node ll lp lh lr) p h r q a e =
    tree_min-lt ll lp lh lr q
      (All-of_append (λ x. x <ℤ q) (inorder (node ll lp lh lr)) (p ∷ inorder r) a).0 e

tree_max-gt :
    (l : Tree) (p : ℤ) (h : ℕ) (r : Tree) {m : ℤ} (q : ℤ)
    → All (λ x. q <ℤ x) (inorder (node l p h r))
    → tree_max (node l p h r) ≡ some m
    → q <ℤ m
unfolding tree_max
tree_max-gt l p h nil q a e =
    let a' = (All-of_append (λ x. q <ℤ x) (inorder l) (p ∷ []) a).1 in ground arith
tree_max-gt l p h (node rl rp rh rr) q a e =
    tree_max-gt rl rp rh rr q
      (All-of_append (λ x. q <ℤ x) (inorder l) (p ∷ inorder (node rl rp rh rr)) a).1.1 e

-- The node with the least price is the left-most one, and the one with the greatest the right-most.
place_below-tree_min :
    (l : Tree) (p : ℤ) (h : ℕ) (r : Tree) (up : Spine) (m : ℤ)
    → IsAscending (inorder (node l p h r))
    → tree_min (node l p h r) ≡ some m
    → place_below m (node l p h r) up ≡ leftmost (node l p h r) up
unfolding place_below leftmost tree_min
place_below-tree_min nil p h r up m a e = ground (arith, ==ℤ_iff m p)
place_below-tree_min (node ll lp lh lr) p h r up m a e =
    let s = IsAscending-of_append (inorder (node ll lp lh lr)) p (inorder r) a in
    let less : m <ℤ p = tree_min-lt ll lp lh lr p s.0 e in
    let e1 : (m ==ℤ p) ≡ false = ground (arith, less) in
    let e2 : ltb_ℤ m p ≡ true = ground (arith, less) in
    rw (e1, e2, place_below) (place_below-tree_min ll lp lh lr (left_of p h r up) m s.2 e)

place_below-tree_max :
    (l : Tree) (p : ℤ) (h : ℕ) (r : Tree) (up : Spine) (m : ℤ)
    → IsAscending (inorder (node l p h r))
    → tree_max (node l p h r) ≡ some m
    → place_below m (node l p h r) up ≡ rightmost (node l p h r) up
unfolding place_below rightmost tree_max
place_below-tree_max l p h nil up m a e = ground (arith, ==ℤ_iff m p)
place_below-tree_max l p h (node rl rp rh rr) up m a e =
    let s = IsAscending-of_append (inorder l) p (inorder (node rl rp rh rr)) a in
    let more : p <ℤ m = tree_max-gt rl rp rh rr p s.1 e in
    let e1 : (m ==ℤ p) ≡ false = ground (arith, more) in
    let e2 : ltb_ℤ m p ≡ false = ground (arith, more) in
    rw (e1, e2, place_below) (place_below-tree_max rl rp rh rr (right_of l p h up) m s.3 e)

tree_min-ne-none :
    (l : Tree) (p : ℤ) (h : ℕ) (r : Tree) → (m : ℤ) × (tree_min (node l p h r) ≡ some m)
unfolding tree_min
tree_min-ne-none nil p h r = (p, refl)
tree_min-ne-none (node ll lp lh lr) p h r = tree_min-ne-none ll lp lh lr

tree_max-ne-none :
    (l : Tree) (p : ℤ) (h : ℕ) (r : Tree) → (m : ℤ) × (tree_max (node l p h r) ≡ some m)
unfolding tree_max
tree_max-ne-none l p h nil = (p, refl)
tree_max-ne-none l p h (node rl rp rh rr) = tree_max-ne-none rl rp rh rr

upwards-tree_min :
    (t : Tree) → IsAscending (inorder t) → upwards (place_of (tree_min t) t) ≡ inorder t
unfolding place_of
upwards-tree_min nil a = unfold tree_min in refl
upwards-tree_min (node l p h r) a =
    let (m, e) = tree_min-ne-none l p h r in
    ap (λ o. upwards (place_of o (node l p h r))) e
    ∙ ap upwards (place_below-tree_min l p h r top m a e)
    ∙ upwards-leftmost l p h r top
    ∙ append-nil (inorder (node l p h r))

downwards-tree_max :
    (t : Tree) → IsAscending (inorder t) → downwards (place_of (tree_max t) t) ≡ descending t
unfolding place_of
downwards-tree_max nil a = unfold tree_max in refl
downwards-tree_max (node l p h r) a =
    let (m, e) = tree_max-ne-none l p h r in
    ap (λ o. downwards (place_of o (node l p h r))) e
    ∙ ap downwards (place_below-tree_max l p h r top m a e)
    ∙ downwards-rightmost l p h r top
    ∙ append-nil (descending (node l p h r))

-- From the least price the loop over the successors passes all prices in order.
pub walk_up-inorder :
    (quantity : ℤ → ℤ) (t : Tree)
    → IsAscending (inorder t)
    → walk_up quantity (size t) (place_of (tree_min t) t) ≡ levels_of quantity (inorder t)
walk_up-inorder quantity t a =
    let e = upwards-tree_min t a in
    walk_up-upwards quantity (size t) _ (omega (arith, ap length e, length-inorder t))
    ∙ ap (levels_of quantity) e

-- From the greatest price the loop over the predecessors passes all prices in reverse.
pub walk_down-descending :
    (quantity : ℤ → ℤ) (t : Tree)
    → IsAscending (inorder t)
    → walk_down quantity (size t) (place_of (tree_max t) t) ≡ levels_of quantity (descending t)
walk_down-descending quantity t a =
    let e = downwards-tree_max t a in
    walk_down-downwards quantity (size t) _ (omega (arith, ap length e, length-descending t))
    ∙ ap (levels_of quantity) e
