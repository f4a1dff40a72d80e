-- ===== src/LimitOrderBook/Changes.antt =====
-- A new quantity for an order that rests, and `add_order` of src/order_book/LimitOrderBook.cpp from its
-- look-up of the level on, keep the book consistent.
use back_tester.Prelude.{
  ℕ, ◌+◌, ◌≡◌, ap, ◌∙◌, none, some, ℤ, pos, nat_key, int_key, find, assign, erase,
  assign-HasUniqueKeys, arith,
}
use back_tester.Event.{MarketDataEvent}
use back_tester.BookSide.{OrderEntry, Level, SideBook, update_level, ensure_level, with_order}
use back_tester.BookSide.Ordered.{update_level-IsOrdered, ensure_level-IsOrdered}
use back_tester.LimitOrderBook.{Book, side_of, set_side, join_level, entry_of}
use back_tester.LimitOrderBook.Sums.{
  share, single, resting, crowd, Shows, or_new, find-update_level, find-join, Shows-joined,
}
use back_tester.LimitOrderBook.Moves.{
  IsConsistent, side_of-IsOrdered, find-hit, changed-IsConsistent, orders-set_side, level_of_order,
  shown_at, erased, replaced, added,
}

abbrev pub resized : ℕ → OrderEntry → ℕ → ℤ → (Level → Level) → Book → Book
resized id oe size time f b =
    let b' = set_side oe.side (update_level oe.price f (side_of oe.side b)) b in
    record b' { orders = assign id (record oe { quantity = size; last_update = time }) b'.orders }

-- The function replaces one order's quantity in the level's.
abbrev pub Replaces : ℕ → ℕ → (Level → Level) → Type 0
Replaces old size f =
    (lv : Level) (n : ℕ)
    → lv.total_quantity ≡ pos (n + old)
    → ((f lv).total_quantity ≡ pos (n + size)) × ((f lv).order_count ≡ lv.order_count)

pub resized-IsConsistent :
    (id : ℕ) (oe : OrderEntry) (size : ℕ) (time : ℤ) (f : Level → Level) (b : Book)
    → IsConsistent b
    → find id b.orders ≡ some oe
    → Replaces oe.quantity size f
    → IsConsistent (resized id oe size time f b)
resized-IsConsistent id oe size time f b c known r =
    let (lv, there) = level_of_order id oe b c known in
    let new : OrderEntry = record oe { quantity = size; last_update = time } in
    let sb : SideBook = update_level oe.price f (side_of oe.side b) in
    let old = λ (w : OrderEntry → ℕ). erased w id oe b.orders c.unique known in
    let now = λ (w : OrderEntry → ℕ). replaced w id oe new b.orders known in
    changed-IsConsistent oe.side oe.price (some (f lv)) sb b c
      (ap (assign id new) (orders-set_side oe.side sb b))
      (assign-HasUniqueKeys id new b.orders c.unique)
      (update_level-IsOrdered oe.side oe.price f (side_of oe.side b)
        (side_of-IsOrdered oe.side b c))
      (λ p. find-update_level oe.price f lv (side_of oe.side b) p there)
      (λ s p at.
        let sh = shown_at s oe.side p oe.price lv b c there at in
        let n = resting s p (erase id b.orders) in
        let rest = rw at at (old (share s p)) in
        let g = r lv n (sh.0 ∙ ap pos rest) in
        let rest' = rw at at (now (share s p)) in
        let crowd' = rw at at (now (single s p)) in
        (
          g.0 ∙ ap pos (omega (arith, rest, rest')),
          g.1 ∙ sh.1 ∙ ap pos (omega (arith, crowd')),
          omega (arith, crowd', sh.2),
        ))
      (λ s p off.
        let n = rw off at (now (share s p)) in
        let m = rw off at (now (single s p)) in (omega (arith, n), omega (arith, m)))

pub join_level-IsConsistent :
    (e : MarketDataEvent) (b : Book)
    → IsConsistent b
    → find e.order_id b.orders ≡ none
    → IsConsistent (join_level e b)
unfolding join_level
join_level-IsConsistent e b c absent =
    let oe = entry_of e in
    let sb = side_of e.side b in
    let sb' = update_level e.price (with_order oe) (ensure_level e.side e.price sb) in
    let now = λ (w : OrderEntry → ℕ). added w e.order_id oe b.orders absent in
    changed-IsConsistent e.side e.price (some (with_order oe (or_new (find e.price sb.levels)))) sb'
      b c (ap (assign e.order_id oe) (orders-set_side e.side sb' b))
      (assign-HasUniqueKeys e.order_id oe b.orders c.unique)
      (update_level-IsOrdered e.side e.price (with_order oe) (ensure_level e.side e.price sb)
        (ensure_level-IsOrdered e.side e.price sb (side_of-IsOrdered e.side b c)))
      (λ p. find-join e.side e.price oe sb p)
      (λ s p at.
        let sh : Shows (find e.price sb.levels) (resting s p b.orders) (crowd s p b.orders) =
          rw (find-hit s e.side p e.price b at) at (c.shown s p) in
        rw (now (share s p), now (single s p), at)
          (Shows-joined oe (find e.price sb.levels) (resting s p b.orders) (crowd s p b.orders) sh))
      (λ s p off.
        let n = rw off at (now (share s p)) in
        let m = rw off at (now (single s p)) in (omega (arith, n), omega (arith, m)))
