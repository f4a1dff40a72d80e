-- ===== src/PriceLevel/Height.antt =====
-- How high a balanced tree of src/order_book/PriceLevel.cpp can be.
use native.Mathlib.Nat.{two-pow-succ, pow-le-pow_right}
use back_tester.Prelude.{ℕ, zero, suc, ◌+◌, ◌/◌, ◌^◌, ◌≤◌, max, ◌≡◌, refl, ap, subst, ◌∙◌, arith}
use back_tester.PriceLevel.{Tree, nil, node, height}
use back_tester.PriceLevel.Balance.{IsAvl, Within}
use back_tester.BookSide.Traversal.{size}

-- The length of the longest path down from the root.
abbrev pub depth : Tree → ℕ
depth nil = 0
depth (node l p h r) = 1 + max (depth l) (depth r)

height-depth : (t : Tree) → IsAvl t → height t ≡ depth t
height-depth nil a = refl
height-depth (node l p h r) (al, ar, e, w) = omega (arith, e, height-depth l al, height-depth r ar)

-- A bound from below of the nodes, and one, of a balanced tree of a height.
abbrev fewest : ℕ → ℕ
fewest h = 2 ^ ((h + 1) / 2)

fewest-le : {a b : ℕ} → a ≤ b → fewest a ≤ fewest b
fewest-le h = pow-le-pow_right (omega arith) (omega (arith, h))

fewest-two_more : (k : ℕ) → fewest (2 + k) ≡ fewest k + fewest k
fewest-two_more k =
    let half : (2 + k + 1) / 2 ≡ suc ((k + 1) / 2) = omega arith in
    ap (λ (n : ℕ). 2 ^ n) half ∙ two-pow-succ ((k + 1) / 2)

fewest-node :
    (m h a b : ℕ) → m ≡ max a b → h ≡ 1 + m → Within 1 a b → fewest h ≤ fewest a + fewest b
fewest-node zero h a b e f w =
    let none_left : a ≡ 0 = omega arith in
    let none_right : b ≡ 0 = omega arith in rw (f, none_left, none_right) (omega arith)
fewest-node (suc k) h a b e f w =
    let le = fewest-le {a = k} {b = a} (omega arith) in
    let le' = fewest-le {a = k} {b = b} (omega arith) in
    let deep : h ≡ 2 + k = omega arith in omega (arith, ap fewest deep, fewest-two_more k, le, le')

-- Balanced trees keep to it.
fewest-height : (t : Tree) → IsAvl t → fewest (height t) ≤ size t + 1
fewest-height nil a = omega arith
fewest-height (node l p h r) (al, ar, e, w) = omega (
  arith,
  fewest-node (max (height l) (height r)) h (height l) (height r) refl e w,
  fewest-height l al,
  fewest-height r ar,
)

-- The height field is the depth, and the nodes keep to the bound.
abbrev pub IsShallow : Tree → Type 0
IsShallow t = (height t ≡ depth t) × (2 ^ ((depth t + 1) / 2) ≤ size t + 1)

pub IsAvl-IsShallow : (t : Tree) → IsAvl t → IsShallow t
IsAvl-IsShallow t a = (
  height-depth t a,
  subst (λ (h : ℕ). fewest h ≤ size t + 1) (height-depth t a) (fewest-height t a),
)
