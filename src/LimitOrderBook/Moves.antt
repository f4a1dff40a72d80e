-- ===== src/LimitOrderBook/Moves.antt =====
-- What a consistent book of src/order_book/LimitOrderBook.cpp is, what a change at one price does to
-- it, and `destroy_order`.
use back_tester.Prelude.{
  ℕ, ◌+◌, ◌≡◌, refl, sym, ap, ◌∙◌, Bool, true, false, Option, none, some, ℤ, ◌==ℤ◌, ==ℤ_iff,
  if◌then◌else◌, Bool-cases, Option-cases, inl, inr, Dict, nat_key, int_key, find, assign, erase,
  total, weight, total-assign, total-erase, weight-le-total, HasUniqueKeys, erase-HasUniqueKeys,
  arith,
}
use back_tester.Event.{Side, is_buy, hits}
use back_tester.BookSide.{OrderEntry, Level, SideBook, leave_level}
use back_tester.BookSide.Ordered.{IsOrdered, leave_level-IsOrdered}
use back_tester.LimitOrderBook.{Book, side_of, set_side, destroy_order}
use back_tester.LimitOrderBook.Sums.{
  share, single, resting, crowd, Shows, resting-of_crowd, left, find-leave_level, Shows-left,
}

abbrev pub levels_at : Bool → Book → Dict ℤ Level
levels_at s b = if s then b.bid.levels else b.ask.levels

-- Both sides are in order, and each level shows the number and the total quantity of its orders.
pub record IsConsistent (b : Book) : Type 0 where
  pub unique : HasUniqueKeys b.orders
  pub shown :
      (s : Bool) (p : ℤ)
      → Shows (find p (levels_at s b)) (resting s p b.orders) (crowd s p b.orders)
  pub bids_ordered : IsOrdered Side.buy b.bid
  pub asks_ordered : IsOrdered Side.sell b.ask

-- Every side other than `Buy` stands for the asks.
asks_as_none : (sb : SideBook) → IsOrdered Side.sell sb → IsOrdered Side.none sb
asks_as_none sb o = record {
  balanced = o.balanced;
  ascending = o.ascending;
  keyed = o.keyed;
  best_right = o.best_right;
}

none_as_asks : (sb : SideBook) → IsOrdered Side.none sb → IsOrdered Side.sell sb
none_as_asks sb o = record {
  balanced = o.balanced;
  ascending = o.ascending;
  keyed = o.keyed;
  best_right = o.best_right;
}

pub side_of-IsOrdered : (side : Side) (b : Book) → IsConsistent b → IsOrdered side (side_of side b)
side_of-IsOrdered Side.buy b c = c.bids_ordered
side_of-IsOrdered Side.sell b c = c.asks_ordered
side_of-IsOrdered Side.none b c = asks_as_none b.ask c.asks_ordered

find-set_side :
    (s : Bool) (side : Side) (p q : ℤ) (new : Option Level) (sb : SideBook) (b : Book)
    → (find p sb.levels ≡ (if q ==ℤ p then new else find p (side_of side b).levels))
    → find p (levels_at s (set_side side sb b))
      ≡ (if hits s p side q then new else find p (levels_at s b))
find-set_side true Side.buy p q new sb b h = h
find-set_side true side p q new sb b h = refl
find-set_side false Side.buy p q new sb b h = refl
find-set_side false side p q new sb b h = h

-- An order that hits price `p` of the side `s` has its level there.
pub find-hit :
    (s : Bool) (side : Side) (p q : ℤ) (b : Book)
    → hits s p side q ≡ true
    → find p (levels_at s b) ≡ find q (side_of side b).levels
find-hit true Side.buy p q b h = ap (λ r. find r b.bid.levels) (sym ((==ℤ_iff q p).0 h))
find-hit true side p q b h = cc
find-hit false Side.buy p q b h = cc
find-hit false side p q b h = ap (λ r. find r b.ask.levels) (sym ((==ℤ_iff q p).0 h))

hits_own : (side : Side) (q : ℤ) → hits (is_buy side) q side q ≡ true
hits_own Side.buy q = (==ℤ_iff q q).1 refl
hits_own side q = (==ℤ_iff q q).1 refl

set_side-bids :
    (side : Side) (sb : SideBook) (b : Book)
    → IsOrdered side sb
    → IsOrdered Side.buy b.bid
    → IsOrdered Side.buy (set_side side sb b).bid
set_side-bids Side.buy sb b o old = o
set_side-bids side sb b o old = old

set_side-asks :
    (side : Side) (sb : SideBook) (b : Book)
    → IsOrdered side sb
    → IsOrdered Side.sell b.ask
    → IsOrdered Side.sell (set_side side sb b).ask
set_side-asks Side.buy sb b o old = old
set_side-asks Side.sell sb b o old = o
set_side-asks Side.none sb b o old = none_as_asks sb o

-- One side has changed at the price `q` of an order on it, and the store of orders with it.
pub changed-IsConsistent :
    (side : Side) (q : ℤ) (new : Option Level) (sb : SideBook) (b : Book)
    {orders orders' : Dict ℕ OrderEntry}
    → IsConsistent b
    → orders' ≡ orders
    → HasUniqueKeys orders
    → IsOrdered side sb
    → ((p : ℤ) → find p sb.levels ≡ (if q ==ℤ p then new else find p (side_of side b).levels))
    → ((s : Bool) (p : ℤ)
        → hits s p side q ≡ true
        → Shows new (resting s p orders) (crowd s p orders))
    → ((s : Bool) (p : ℤ)
        → hits s p side q ≡ false
        → (resting s p orders ≡ resting s p b.orders) × (crowd s p orders ≡ crowd s p b.orders))
    → IsConsistent (record (set_side side sb b) { orders = orders' })
changed-IsConsistent side q new sb b {orders = orders} c e u o f hit miss = record {
  unique = rw e u;
  shown = λ s p.
      rw (e, find-set_side s side p q new sb b (f p))
        (elim (Bool-cases (hits s p side q)) [
          | inl at ↦ rw at (hit s p at)
          | inr off ↦ rw (off, (miss s p off).0, (miss s p off).1) (c.shown s p)
        ]);
  bids_ordered = set_side-bids side sb b o c.bids_ordered;
  asks_ordered = set_side-asks side sb b o c.asks_ordered;
}

pub orders-set_side :
    (side : Side) (sb : SideBook) (b : Book) → (set_side side sb b).orders ≡ b.orders
orders-set_side Side.buy sb b = refl
orders-set_side side sb b = refl

-- The level of an order that rests is there.
pub level_of_order :
    (id : ℕ) (oe : OrderEntry) (b : Book)
    → IsConsistent b
    → find id b.orders ≡ some oe
    → (lv : Level) × (find oe.price (side_of oe.side b).levels ≡ some lv)
level_of_order id oe b c known = elim (Option-cases (find oe.price (side_of oe.side b).levels)) [
  | inr there ↦ there
  | inl absent ↦
      let s = is_buy oe.side in
      let h = hits_own oe.side oe.price in
      let e = find-hit s oe.side oe.price oe.price b h ∙ absent in
      let sh : Shows none (resting s oe.price b.orders) (crowd s oe.price b.orders) =
        rw e at (c.shown s oe.price) in
      absurd (
        ground (
          arith,
          sh,
          h,
          weight-le-total (single s oe.price) id b.orders,
          ap (weight (single s oe.price)) known,
        ))
]

pub shown_at :
    (s : Bool) (side : Side) (p q : ℤ) (lv : Level) (b : Book)
    → IsConsistent b
    → find q (side_of side b).levels ≡ some lv
    → hits s p side q ≡ true
    → Shows (some lv) (resting s p b.orders) (crowd s p b.orders)
shown_at s side p q lv b c there at = rw (find-hit s side p q b at ∙ there) at (c.shown s p)

-- What an order that leaves the store takes with it.
pub erased :
    (f : OrderEntry → ℕ) (id : ℕ) (oe : OrderEntry) (orders : Dict ℕ OrderEntry)
    → HasUniqueKeys orders
    → find id orders ≡ some oe
    → total f orders ≡ total f (erase id orders) + f oe
erased f id oe orders u known = omega (arith, total-erase f id orders u, ap (weight f) known)

pub replaced :
    (f : OrderEntry → ℕ) (id : ℕ) (oe new : OrderEntry) (orders : Dict ℕ OrderEntry)
    → find id orders ≡ some oe
    → total f (assign id new orders) + f oe ≡ total f orders + f new
replaced f id oe new orders known = omega (arith, total-assign f id new orders, ap (weight f) known)

pub added :
    (f : OrderEntry → ℕ) (id : ℕ) (new : OrderEntry) (orders : Dict ℕ OrderEntry)
    → find id orders ≡ none
    → total f (assign id new orders) ≡ total f orders + f new
added f id new orders absent = omega (arith, total-assign f id new orders, ap (weight f) absent)

-- `destroy_order` on an order that rests.
pub destroy_order-IsConsistent :
    (id : ℕ) (oe : OrderEntry) (b : Book)
    → IsConsistent b
    → find id b.orders ≡ some oe
    → IsConsistent (destroy_order id oe b)
unfolding destroy_order
destroy_order-IsConsistent id oe b c known =
    let (lv, there) = level_of_order id oe b c known in
    let lost = λ (f : OrderEntry → ℕ). erased f id oe b.orders c.unique known in
    changed-IsConsistent oe.side oe.price (left oe lv) (leave_level oe (side_of oe.side b)) b c
      (ap (erase id) (orders-set_side oe.side (leave_level oe (side_of oe.side b)) b))
      (erase-HasUniqueKeys id b.orders c.unique)
      (leave_level-IsOrdered oe (side_of oe.side b) (side_of-IsOrdered oe.side b c))
      (λ p. find-leave_level oe lv (side_of oe.side b) p there)
      (λ s p at.
        Shows-left oe lv (resting s p (erase id b.orders)) (crowd s p (erase id b.orders))
          (rw (lost (share s p), lost (single s p), at) at
            (shown_at s oe.side p oe.price lv b c there at))
          (resting-of_crowd s p (erase id b.orders)))
      (λ s p off.
        let n = rw off at (lost (share s p)) in
        let m = rw off at (lost (single s p)) in (omega (arith, n), omega (arith, m)))
