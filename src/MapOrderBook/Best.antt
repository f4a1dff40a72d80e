-- ===== src/MapOrderBook/Best.antt =====
-- The queries of src/order_book/MapOrderBook.cpp: the best price is the first of its side.
use back_tester.Prelude.{
  ◌≡◌, refl, ◌⊎◌, inl, inr, Bool, true, false, not, ◌&&◌, none, some, is_some, List, [], ◌∷◌, ℤ,
  ◌≤ℤ◌, ◌==ℤ◌, ==ℤ_iff, All, int_key, find, Bool-cases, arith,
}
use back_tester.Event.{Side}
use back_tester.LevelMap.{ascending, descending, IsSorted}
use back_tester.MapOrderBook.{LevelMaps, Book, first_price, is_empty, best_price, empty}

find-All :
    (before : ℤ → ℤ → Bool) (k p : ℤ) (m : List (ℤ × ℤ))
    → All (λ y. before k y.0 ≡ true) m
    → is_some (find p m) ≡ true
    → before k p ≡ true
unfolding find
find-All before k p [] a h = absurd (cc)
find-All before k p ((j, w) ∷ m) a h = elim (Bool-cases (j ==ℤ p)) [
  | inl same ↦ rw (← (==ℤ_iff j p).0 same) a.0
  | inr apart ↦ find-All before k p m a.1 (rw apart at h)
]

-- In a sorted list the first key comes before every other key that a lookup finds.
first-IsSorted :
    (before : ℤ → ℤ → Bool) (p q : ℤ) (m : List (ℤ × ℤ))
    → IsSorted before m
    → first_price m ≡ some p
    → is_some (find q m) ≡ true
    → (p ≡ q) ⊎ (before p q ≡ true)
unfolding find
first-IsSorted before p q [] s h f = cc
first-IsSorted before p q ((j, w) ∷ m) s h f = elim (Bool-cases (j ==ℤ q)) [
  | inl same ↦ inl (ground (arith, ==ℤ_iff j q))
  | inr apart ↦ inr (ground (arith, find-All before j q m s.0))
]

first-found : (p : ℤ) (m : List (ℤ × ℤ)) → first_price m ≡ some p → is_some (find p m) ≡ true
unfolding find
first-found p [] h = cc
first-found p ((j, w) ∷ m) h = ground (arith, ==ℤ_iff j p)

is_empty-first_price : (m : List (ℤ × ℤ)) → is_empty m ≡ not (is_some (first_price m))
is_empty-first_price [] = refl
is_empty-first_price (x ∷ m) = refl

is_empty-find : (p : ℤ) (m : List (ℤ × ℤ)) → (is_empty m && is_some (find p m)) ≡ false
unfolding find
is_empty-find p [] = refl
is_empty-find p (x ∷ m) = refl

and_comm : (x y : Bool) → (x && y) ≡ (y && x)
and_comm true true = refl
and_comm true false = refl
and_comm false true = refl
and_comm false false = refl

module _ {B A : Type 0} ⦃maps : LevelMaps B A⦄ where
  open maps use {bid_map, ask_map}

  -- Is there a level at price `p` of the side?
  abbrev pub has_level : Side → ℤ → Book B A → Bool
  has_level Side.buy p b = is_some (bid_map.level_at p b.bids)
  has_level Side.sell p b = is_some (ask_map.level_at p b.asks)
  has_level Side.none p b = false

  -- The best bid has a level, and no level of the bids has a higher price.
  pub best_bid-greatest :
      (b : Book B A) (p q : ℤ)
      → best_price Side.buy b ≡ some p
      → has_level Side.buy q b ≡ true
      → (has_level Side.buy p b ≡ true) × (q ≤ℤ p)
  unfolding best_price
  best_bid-greatest b p q h f = ground (
    arith,
    bid_map.find-items p b.bids,
    bid_map.find-items q b.bids,
    first-found p (bid_map.items b.bids) h,
    first-IsSorted descending p q (bid_map.items b.bids) (bid_map.items-IsSorted b.bids) h,
  )

  -- The best ask has a level, and no level of the asks has a lower price.
  pub best_ask-least :
      (b : Book B A) (p q : ℤ)
      → best_price Side.sell b ≡ some p
      → has_level Side.sell q b ≡ true
      → (has_level Side.sell p b ≡ true) × (p ≤ℤ q)
  unfolding best_price
  best_ask-least b p q h f = ground (
    arith,
    ask_map.find-items p b.asks,
    ask_map.find-items q b.asks,
    first-found p (ask_map.items b.asks) h,
    first-IsSorted ascending p q (ask_map.items b.asks) (ask_map.items-IsSorted b.asks) h,
  )

  -- A side is empty exactly when it has no best price, and then it has no level at any price; the side
  -- `None` never has a best price, and is empty exactly when both other sides are.
  pub empty-best_price :
      (b : Book B A) (p : ℤ)
      → (empty Side.buy b ≡ not (is_some (best_price Side.buy b)))
        × (empty Side.sell b ≡ not (is_some (best_price Side.sell b)))
        × (best_price Side.none b ≡ none)
        × (empty Side.none b ≡ (empty Side.buy b && empty Side.sell b))
        × ((empty Side.buy b && has_level Side.buy p b) ≡ false)
        × ((empty Side.sell b && has_level Side.sell p b) ≡ false)
  unfolding best_price empty
  empty-best_price b p = (
    is_empty-first_price (bid_map.items b.bids),
    is_empty-first_price (ask_map.items b.asks),
    refl,
    and_comm (is_empty (ask_map.items b.asks)) (is_empty (bid_map.items b.bids)),
    rw (← bid_map.find-items p b.bids) (is_empty-find p (bid_map.items b.bids)),
    rw (← ask_map.find-items p b.asks) (is_empty-find p (ask_map.items b.asks)),
  )
