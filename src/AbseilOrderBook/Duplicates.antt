-- ===== src/AbseilOrderBook/Duplicates.antt =====
-- A duplicate add in src/order_book/AbseilOrderBook.cpp: `case Action::Add` does not take the
-- replaced order off its level, as src/order_book/MapOrderBook.cpp does.
use back_tester.Prelude.{
  ◌+◌, ◌≡◌, ap, ◌∙◌, Bool, false, some, ℤ, pos, nat_key, find, weight, total-assign, arith,
}
use back_tester.Event.{Action, MarketDataEvent}
use back_tester.MapOrderBook.{OrderRecord, LevelMaps, Book, record_of, rests_unpriced}
use back_tester.MapOrderBook.Levels.{quantity, quantity-add_to_level, index-add_to_level}
use back_tester.MapOrderBook.Volume.{share, resting, IsConsistent}
use back_tester.AbseilOrderBook.{rest_order, apply_add, dispatch, apply}

module _ {B A : Type 0} ⦃maps : LevelMaps B A⦄ where
  apply_add-duplicate :
      (e : MarketDataEvent) (b : Book B A) (r : OrderRecord) (s : Bool) (p : ℤ)
      → IsConsistent b
      → find e.order_id b.order_index ≡ some r
      → rests_unpriced e ≡ false
      → quantity s p (apply_add e b) ≡ pos (resting s p (apply_add e b).order_index + share s p r)
  unfolding apply_add rest_order
  apply_add-duplicate e b r s p c known rests =
      rw (rests, index-add_to_level)
        (quantity-add_to_level s e.side p e.price e.size (resting s p b.order_index) b
            (c.summed s p)
          ∙ ap pos (
              omega (
                arith,
                total-assign (share s p) e.order_id (record_of e) b.order_index,
                ap (weight (share s p)) known,
              )))

  dispatch-add :
      (a : Action) (e : MarketDataEvent) (b : Book B A)
      → a ≡ Action.add
      → dispatch a e b ≡ apply_add e b
  unfolding dispatch
  dispatch-add a e b h = rw h

  -- After an add that has a side and a price and names a known order `r`, in a book whose levels show
  -- the sums of their orders, each price of each side shows the sum of its orders and beyond that
  -- whatever `r` had there: the size of the replaced order stays in its level.
  pub duplicate_keeps_volume :
      (e : MarketDataEvent) (b : Book B A) (r : OrderRecord) (s : Bool) (p : ℤ)
      → IsConsistent b
      → e.action ≡ Action.add
      → find e.order_id b.order_index ≡ some r
      → rests_unpriced e ≡ false
      → quantity s p (apply e b) ≡ pos (resting s p (apply e b).order_index + share s p r)
  unfolding apply
  duplicate_keeps_volume e b r s p c is_add known rests =
      rw (dispatch-add e.action e b is_add) (apply_add-duplicate e b r s p c known rests)
