-- ===== src/LimitOrderBook/Listing.antt =====
-- `side_levels_impl` of src/order_book/LimitOrderBook.cpp against the orders that rest.
use back_tester.Prelude.{
  ℕ, ◌<◌, ◌≡◌, refl, sym, ap, ◌∙◌, Bool, true, false, Option, none, some, is_some, List, [], ◌∷◌,
  ◌++◌, map, ℤ, pos, ◌<ℤ◌, All, All-append, All-imp, if◌then◌else◌, Dict, nat_key, int_key, find,
  arith,
}
use back_tester.Event.{Side, MarketDataEvent}
use back_tester.AnomalyLog.{BookAnomalyLog}
use back_tester.PriceLevel.{Tree, nil, node}
use back_tester.PriceLevel.Inorder.{inorder, IsAscending, IsAscending-of_append, All-of_append}
use back_tester.BookSide.{OrderEntry, Level, tree_max, tree_min}
use back_tester.BookSide.Keys.{mem, mem-append, All-of_mem}
use back_tester.BookSide.Extremes.{extreme-best_of}
use back_tester.BookSide.Traversal.Order.{
  descending, levels_of, walk_up-inorder, walk_down-descending,
}
use back_tester.LimitOrderBook.{empty_book, quantity_of, quantity_at, side_levels}
use back_tester.LimitOrderBook.Sums.{resting, crowd, Shows}
use back_tester.LimitOrderBook.Moves.{IsConsistent, levels_at}
use back_tester.LimitOrderBook.Best.{shown-crowd}
use back_tester.LimitOrderBook.Consistent.{run, run_empty-IsConsistent}

abbrev pub prices : List (ℤ × ℤ) → List ℤ
prices levels = map (λ lv. lv.0) levels

abbrev pub IsDescending : List ℤ → Type 0
IsDescending [] = Unit
IsDescending (x ∷ xs) = All (λ y. y <ℤ x) xs × IsDescending xs

-- The best price comes first: the greatest of the bids (`true`), the least of the asks.
abbrev pub IsBestFirst : Bool → List ℤ → Type 0
IsBestFirst true ps = IsDescending ps
IsBestFirst false ps = IsAscending ps

-- The listing has each price at which orders rest, and no other, once, with their total quantity.
pub record IsListing (s : Bool) (orders : Dict ℕ OrderEntry) (levels : List (ℤ × ℤ)) : Type 0 where
  pub shown : All (λ lv. (0 < crowd s lv.0 orders) × (lv.1 ≡ pos (resting s lv.0 orders))) levels
  pub complete : (p : ℤ) → 0 < crowd s p orders → mem p (prices levels) ≡ true
  pub best_first : IsBestFirst s (prices levels)

All-descending {κ} : (P : ℤ → Type κ) (t : Tree) → All P (inorder t) → All P (descending t)
All-descending P nil a = tt
All-descending P (node l p h r) a =
    let (al, ar) = All-of_append P (inorder l) (p ∷ inorder r) a in
    All-append P (descending r) (p ∷ descending l) (All-descending P r ar.1)
      (ar.0, All-descending P l al)

IsDescending-append :
    (xs : List ℤ) (p : ℤ) (ys : List ℤ)
    → IsDescending xs
    → All (λ x. p <ℤ x) xs
    → All (λ y. y <ℤ p) ys
    → IsDescending ys
    → IsDescending (xs ++ (p ∷ ys))
IsDescending-append [] p ys d above below e = (below, e)
IsDescending-append (x ∷ xs) p ys d above below e = (
  All-append (λ y. y <ℤ x) xs (p ∷ ys) d.0
      (above.0, All-imp (λ y h. omega (arith, above.0)) ys below),
  IsDescending-append xs p ys d.1 above.1 below e,
)

descending-IsDescending : (t : Tree) → IsAscending (inorder t) → IsDescending (descending t)
descending-IsDescending nil a = tt
descending-IsDescending (node l p h r) a =
    let s = IsAscending-of_append (inorder l) p (inorder r) a in
    IsDescending-append (descending r) p (descending l) (descending-IsDescending r s.3)
      (All-descending (λ x. p <ℤ x) r s.1) (All-descending (λ y. y <ℤ p) l s.0)
      (descending-IsDescending l s.2)

mem-descending : (q : ℤ) (t : Tree) → mem q (descending t) ≡ mem q (inorder t)
mem-descending q nil = refl
mem-descending q (node l p h r) = ground (
  arith,
  mem-append q (descending r) (p ∷ descending l),
  mem-append q (inorder l) (p ∷ inorder r),
  mem-descending q l,
  mem-descending q r,
)

prices-levels_of : (quantity : ℤ → ℤ) (ps : List ℤ) → prices (levels_of quantity ps) ≡ ps
prices-levels_of quantity [] = refl
prices-levels_of quantity (p ∷ ps) = ap (λ r. p ∷ r) (prices-levels_of quantity ps)

All-levels_of {κ} :
    (P : ℤ × ℤ → Type κ) (quantity : ℤ → ℤ) (ps : List ℤ)
    → All (λ p. P (p, quantity p)) ps
    → All P (levels_of quantity ps)
All-levels_of P quantity [] a = tt
All-levels_of P quantity (p ∷ ps) a = (a.0, All-levels_of P quantity ps a.1)

Shows-quantity : (o : Option Level) (n c : ℕ) → Shows o n c → quantity_of o ≡ pos n
Shows-quantity none n c sh = ap pos (sym sh.0)
Shows-quantity (some lv) n c sh = sh.0

-- A listing of the prices of the levels, best first.
listing :
    (s : Bool) (b : _) (ps : List ℤ)
    → IsConsistent b
    → ((p : ℤ) → is_some (find p (levels_at s b)) ≡ mem p ps)
    → IsBestFirst s ps
    → IsListing s b.orders (levels_of (quantity_at (levels_at s b)) ps)
listing s b ps c keyed sorted = record {
  shown = All-levels_of _ _ ps (
      All-of_mem _ ps (λ p m.
        ((shown-crowd _ _ _ (c.shown s p)).0 (keyed p ∙ m), Shows-quantity _ _ _ (c.shown s p))));
  complete = λ p rests.
      ap (mem p) (prices-levels_of _ ps)
      ∙ sym (keyed p)
      ∙ (shown-crowd _ _ _ (c.shown s p)).1 rests;
  best_first = rw (prices-levels_of (quantity_at (levels_at s b)) ps) sorted;
}

-- After any stream of events from the empty book, `side_levels` of a side (`true` is the bids) lists
-- each price at which orders of the side rest, and no other, once, with their total quantity, from
-- the best price on.
pub side_levels-run :
    (s : Bool) (es : List MarketDataEvent) (l : BookAnomalyLog)
    → IsListing s
        (run es empty_book l).0.orders
        (side_levels (if s then Side.buy else Side.sell) (run es empty_book l).0)
unfolding side_levels tree_max tree_min
side_levels-run true es l =
    let b = (run es empty_book l).0 in
    let c = run_empty-IsConsistent es l in
    let o = c.bids_ordered in
    let e = o.best_right ∙ sym (extreme-best_of Side.buy b.bid.tree) in
    rw (e, walk_down-descending (quantity_at b.bid.levels) b.bid.tree o.ascending)
      (listing true b (descending b.bid.tree) c (λ p. o.keyed p ∙ sym (mem-descending p b.bid.tree))
        (descending-IsDescending b.bid.tree o.ascending))
side_levels-run false es l =
    let b = (run es empty_book l).0 in
    let c = run_empty-IsConsistent es l in
    let o = c.asks_ordered in
    let e = o.best_right ∙ sym (extreme-best_of Side.sell b.ask.tree) in
    rw (e, walk_up-inorder (quantity_at b.ask.levels) b.ask.tree o.ascending)
      (listing false b (inorder b.ask.tree) c (λ p. o.keyed p) o.ascending)
