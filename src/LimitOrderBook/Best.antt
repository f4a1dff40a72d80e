-- ===== src/LimitOrderBook/Best.antt =====
-- `best_price_impl` and `empty_impl` of src/order_book/LimitOrderBook.cpp against the orders that rest.
use back_tester.Prelude.{
  ℕ, ◌<◌, ◌≡◌, refl, sym, ◌∙◌, true, false, Option, none, some, is_some, List, [], ◌∷◌, ℤ, ◌<ℤ◌,
  ◌≤ℤ◌, ==ℤ_iff, All, nat_key, int_key, arith, Dict,
}
use back_tester.Event.{Side, MarketDataEvent}
use back_tester.AnomalyLog.{BookAnomalyLog}
use back_tester.PriceLevel.Inorder.{inorder, IsAscending}
use back_tester.BookSide.Keys.{mem}
use back_tester.BookSide.Extremes.{first, last, last_from}
use back_tester.BookSide.{OrderEntry}
use back_tester.LimitOrderBook.{Book, empty_book, best_price}
use back_tester.LimitOrderBook.Sums.{crowd, Shows}
use back_tester.LimitOrderBook.Moves.{IsConsistent}
use back_tester.LimitOrderBook.Consistent.{run, run_empty-IsConsistent}

mem-All : (x p : ℤ) (xs : List ℤ) → All (λ y. x <ℤ y) xs → mem p xs ≡ true → x <ℤ p
mem-All x p [] a m = absurd (cc)
mem-All x p (y ∷ ys) a m = ground (arith, ==ℤ_iff y p, mem-All x p ys a.1)

first-least :
    (p q : ℤ) (xs : List ℤ)
    → IsAscending xs
    → first xs ≡ some p
    → mem q xs ≡ true
    → (mem p xs ≡ true) × (p ≤ℤ q)
first-least p q [] a f m = absurd (cc)
first-least p q (x ∷ xs) a f m = ground (arith, ==ℤ_iff x p, ==ℤ_iff x q, mem-All x q xs a.0)

last_from-greatest :
    (q x : ℤ) (xs : List ℤ)
    → IsAscending (x ∷ xs)
    → mem q (x ∷ xs) ≡ true
    → (mem (last_from x xs) (x ∷ xs) ≡ true) × (q ≤ℤ last_from x xs)
last_from-greatest q x [] a m = ground (arith, ==ℤ_iff x q, ==ℤ_iff x x)
last_from-greatest q x (y ∷ ys) a m =
    ground (
      arith,
      ==ℤ_iff x q,
      ==ℤ_iff y y,
      last_from-greatest q y ys a.1,
      last_from-greatest y y ys a.1,
    )

last-greatest :
    (p q : ℤ) (xs : List ℤ)
    → IsAscending xs
    → last xs ≡ some p
    → mem q xs ≡ true
    → (mem p xs ≡ true) × (q ≤ℤ p)
last-greatest p q [] a f m = absurd (cc)
last-greatest p q (x ∷ xs) a f m = ground (arith, last_from-greatest q x xs a m)

-- There is a level exactly where orders rest.
pub shown-crowd :
    (o : Option _) (n c : ℕ) → Shows o n c → (is_some o ≡ true → 0 < c) × (0 < c → is_some o ≡ true)
shown-crowd none n c sh = ground arith
shown-crowd (some lv) n c sh = ground arith

last-none : (xs : List ℤ) → last xs ≡ none → xs ≡ []
last-none [] h = refl
last-none (x ∷ xs) h = absurd (cc)

first-none : (xs : List ℤ) → first xs ≡ none → xs ≡ []
first-none [] h = refl
first-none (x ∷ xs) h = absurd (cc)

no_crowd :
    (p : ℤ) (xs : List ℤ) (o : Option _) (n c : ℕ)
    → xs ≡ []
    → is_some o ≡ mem p xs
    → Shows o n c
    → c ≡ 0
no_crowd p xs none n c e k sh = sh.1
no_crowd p xs (some lv) n c e k sh = absurd (let k' = rw e at k in cc)

last-mem : (p : ℤ) (xs : List ℤ) → IsAscending xs → last xs ≡ some p → mem p xs ≡ true
last-mem p [] a f = absurd (cc)
last-mem p (x ∷ xs) a f = (last-greatest p x (x ∷ xs) a f (ground (arith, ==ℤ_iff x x))).0

first-mem : (p : ℤ) (xs : List ℤ) → first xs ≡ some p → mem p xs ≡ true
first-mem p [] f = absurd (cc)
first-mem p (x ∷ xs) f = ground (arith, ==ℤ_iff x p)

-- What a best price should be: none where no order rests on the side, or else a price at which an order
-- rests and that no other such price beats.
abbrev pub IsBestBid : Option ℤ → Dict ℕ OrderEntry → Type 0
IsBestBid none orders = (q : ℤ) → crowd true q orders ≡ 0
IsBestBid (some p) orders = (0 < crowd true p orders) × ((q : ℤ) → 0 < crowd true q orders → q ≤ℤ p)

abbrev pub IsBestAsk : Option ℤ → Dict ℕ OrderEntry → Type 0
IsBestAsk none orders = (q : ℤ) → crowd false q orders ≡ 0
IsBestAsk (some p) orders =
    (0 < crowd false p orders) × ((q : ℤ) → 0 < crowd false q orders → p ≤ℤ q)

module _ (b : Book) (c : IsConsistent b) where
  bid-IsBestBid : (o : Option ℤ) → best_price Side.buy b ≡ o → IsBestBid o b.orders
  unfolding best_price
  bid-IsBestBid none h =
      let o = c.bids_ordered in
      λ q. no_crowd q _ _ _ _ (last-none _ (sym o.best_right ∙ h)) (o.keyed q) (c.shown true q)
  bid-IsBestBid (some p) h =
      let o = c.bids_ordered in
      let top = sym o.best_right ∙ h in
      (
        (shown-crowd _ _ _ (c.shown true p)).0
            (o.keyed p ∙ last-mem p (inorder b.bid.tree) o.ascending top),
        λ q rests.
            (last-greatest p q (inorder b.bid.tree) o.ascending top
              (sym (o.keyed q) ∙ (shown-crowd _ _ _ (c.shown true q)).1 rests)).1,
      )

  ask-IsBestAsk : (o : Option ℤ) → best_price Side.sell b ≡ o → IsBestAsk o b.orders
  unfolding best_price
  ask-IsBestAsk none h =
      let o = c.asks_ordered in
      λ q. no_crowd q _ _ _ _ (first-none _ (sym o.best_right ∙ h)) (o.keyed q) (c.shown false q)
  ask-IsBestAsk (some p) h =
      let o = c.asks_ordered in
      let low = sym o.best_right ∙ h in
      (
        (shown-crowd _ _ _ (c.shown false p)).0 (o.keyed p ∙ first-mem p (inorder b.ask.tree) low),
        λ q rests.
            (first-least p q (inorder b.ask.tree) o.ascending low
              (sym (o.keyed q) ∙ (shown-crowd _ _ _ (c.shown false q)).1 rests)).1,
      )

-- After any stream of events from the empty book there is no best bid where no bid rests, and otherwise
-- the best bid is a price at which a bid rests and above which none does.
pub best_price-IsBestBid :
    (es : List MarketDataEvent) (l : BookAnomalyLog)
    → IsBestBid (best_price Side.buy (run es empty_book l).0) (run es empty_book l).0.orders
best_price-IsBestBid es l =
    bid-IsBestBid (run es empty_book l).0 (run_empty-IsConsistent es l) _ refl

-- After any stream of events from the empty book there is no best ask where no ask rests, and otherwise
-- the best ask is a price at which an ask rests and below which none does.
pub best_price-IsBestAsk :
    (es : List MarketDataEvent) (l : BookAnomalyLog)
    → IsBestAsk (best_price Side.sell (run es empty_book l).0) (run es empty_book l).0.orders
best_price-IsBestAsk es l =
    ask-IsBestAsk (run es empty_book l).0 (run_empty-IsConsistent es l) _ refl
