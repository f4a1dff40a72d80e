-- ===== src/LimitOrderBook/Sums.antt =====
-- What stands at the price levels of src/order_book/LimitOrderBook.cpp: each shows the number and the
-- total quantity of the orders that rest there, and there is no level without an order.
use back_tester.Prelude.{
  ℕ, zero, suc, ◌+◌, ◌<◌, ◌≡◌, refl, ◌∙◌, Bool, true, Option, none, some, ℤ, pos, ◌+ℤ◌, ◌-ℤ◌, ◌==ℤ◌,
  ==ℤ_iff, [], ◌∷◌, if◌then◌else◌, Bool-cases, Option-cases, inl, inr, Dict, nat_key, int_key, find,
  find-assign, find-erase, total, arith,
}
use back_tester.Event.{Side, hits}
use back_tester.BookSide.{
  OrderEntry, Level, SideBook, update_level, leave_level, ensure_level, remove_level, without_order,
  with_order,
}

-- What an entry adds to the quantity, and to the number of orders, at price `p` of the side `s`.
abbrev pub share : Bool → ℤ → OrderEntry → ℕ
share s p oe = if hits s p oe.side oe.price then oe.quantity else 0

abbrev pub single : Bool → ℤ → OrderEntry → ℕ
single s p oe = if hits s p oe.side oe.price then 1 else 0

-- The total quantity, and the number, of the orders that rest at price `p` of the side `s`.
abbrev pub resting : Bool → ℤ → Dict ℕ OrderEntry → ℕ
resting s p orders = total (share s p) orders

abbrev pub crowd : Bool → ℤ → Dict ℕ OrderEntry → ℕ
crowd s p orders = total (single s p) orders

-- A level, or none, for orders of total quantity `n` and number `c`.
abbrev pub Shows : Option Level → ℕ → ℕ → Type 0
Shows none n c = (n ≡ 0) × (c ≡ 0)
Shows (some lv) n c = (lv.total_quantity ≡ pos n) × (lv.order_count ≡ pos c) × (0 < c)

-- Where no order rests nothing is to be had.
pub resting-of_crowd :
    (s : Bool) (p : ℤ) (orders : Dict ℕ OrderEntry) → crowd s p orders ≡ 0 → resting s p orders ≡ 0
resting-of_crowd s p [] h = refl
resting-of_crowd s p ((id, oe) ∷ orders) h = ground (arith, resting-of_crowd s p orders)

-- The level that an entry's price leads to, after the entry has left.
abbrev pub left : OrderEntry → Level → Option Level
left oe lv =
    if (without_order oe lv).order_count ==ℤ pos 0 then none else some (without_order oe lv)

pub find-leave_level :
    (oe : OrderEntry) (lv : Level) (sb : SideBook) (p : ℤ)
    → find oe.price sb.levels ≡ some lv
    → find p (leave_level oe sb).levels ≡ (if oe.price ==ℤ p then left oe lv else find p sb.levels)
unfolding leave_level remove_level
find-leave_level oe lv sb p there =
    rw (there, leave_level)
      (elim (Bool-cases ((without_order oe lv).order_count ==ℤ pos 0)) [
        | inl empties ↦
            rw (empties, find-erase)
              (ground (arith, find-assign oe.price p (without_order oe lv) sb.levels))
        | inr more ↦ rw (more, find-assign)
      ])

pub Shows-left :
    (oe : OrderEntry) (lv : Level) (n c : ℕ)
    → Shows (some lv) (n + oe.quantity) (c + 1)
    → (c ≡ 0 → n ≡ 0)
    → Shows (left oe lv) n c
unfolding ◌-ℤ◌
Shows-left oe lv n zero sh z = let e = z refl in ground arith
Shows-left oe lv n (suc c) sh z = ground arith

-- The level that `add_order` finds or makes.
abbrev pub or_new : Option Level → Level
or_new none = record { order_count = pos 0; total_quantity = pos 0; orders = [] }
or_new (some lv) = lv

find-ensure_level :
    (s : Side) (q : ℤ) (sb : SideBook) (p : ℤ)
    → find p (ensure_level s q sb).levels
      ≡ (if q ==ℤ p then some (or_new (find q sb.levels)) else find p sb.levels)
unfolding ensure_level
find-ensure_level s q sb p = elim (Option-cases (find q sb.levels)) [
  | inl absent ↦ rw (absent, ensure_level, find-assign)
  | inr (lv, there) ↦ rw (there, ensure_level) (ground (arith, ==ℤ_iff q p))
]

pub find-update_level :
    (q : ℤ) (f : Level → Level) (lv : Level) (sb : SideBook) (p : ℤ)
    → find q sb.levels ≡ some lv
    → find p (update_level q f sb).levels ≡ (if q ==ℤ p then some (f lv) else find p sb.levels)
find-update_level q f lv sb p there = rw (there, update_level, find-assign)

same_key : (q : ℤ) → (q ==ℤ q) ≡ true
same_key q = (==ℤ_iff q q).1 refl

-- The level at a price after an entry has joined it.
pub find-join :
    (s : Side) (q : ℤ) (oe : OrderEntry) (sb : SideBook) (p : ℤ)
    → find p (update_level q (with_order oe) (ensure_level s q sb)).levels
      ≡ (if q ==ℤ p then some (with_order oe (or_new (find q sb.levels))) else find p sb.levels)
find-join s q oe sb p =
    let there : find q (ensure_level s q sb).levels ≡ some (or_new (find q sb.levels)) =
      find-ensure_level s q sb q ∙ rw (same_key q) in
    find-update_level q (with_order oe) (or_new (find q sb.levels)) (ensure_level s q sb) p there
    ∙ ground (arith, find-ensure_level s q sb p)

pub Shows-joined :
    (oe : OrderEntry) (o : Option Level) (n c : ℕ)
    → Shows o n c
    → Shows (some (with_order oe (or_new o))) (n + oe.quantity) (c + 1)
unfolding ◌+ℤ◌
Shows-joined oe none n c sh = ground arith
Shows-joined oe (some lv) n c sh = ground arith
