-- ===== src/AbseilOrderBook/Agrees.antt =====
-- src/order_book/AbseilOrderBook.cpp against src/order_book/MapOrderBook.cpp.
use back_tester.Prelude.{
  ◌≡◌, refl, ap, ◌∙◌, Bool-cases, Option-cases, inl, inr, Option, none, some, List, [], ◌∷◌,
  nat_key, find,
}
use back_tester.Event.{Action, MarketDataEvent}
use back_tester.AnomalyLog.{BookAnomalyLog}
use back_tester.MapOrderBook
use back_tester.MapOrderBook.{OrderRecord, LevelMaps, Book, rests_unpriced}
use back_tester.MapOrderBook.Consistent as MapRun
use back_tester.AbseilOrderBook.{
  rest_order, apply_add, cancel_known, apply_cancel, modify_known, apply_modify, dispatch, apply,
}

-- An add does not name an order that is known.
abbrev pub IsFreshAdd : Action → Option OrderRecord → Type 0
IsFreshAdd Action.add (some r) = ⊥
IsFreshAdd Action.add none = Unit
IsFreshAdd _ o = Unit

module _ {B A : Type 0} ⦃maps : LevelMaps B A⦄ where
  apply_add-agrees :
      (e : MarketDataEvent) (b : Book B A) (l : BookAnomalyLog)
      → IsFreshAdd Action.add (find e.order_id b.order_index)
      → apply_add e b ≡ (MapOrderBook.apply_add e b l).0
  unfolding apply_add rest_order MapOrderBook.apply_add MapOrderBook.rest_order
  apply_add-agrees e b l f = elim (Option-cases (find e.order_id b.order_index)) [
    | inl fresh ↦
        rw (fresh, MapOrderBook.apply_add)
          (elim (Bool-cases (rests_unpriced e)) [ inl skip ↦ rw skip | inr rests ↦ rw rests ])
    | inr (r, known) ↦ absurd (rw known at f)
  ]

  apply_cancel-agrees :
      (e : MarketDataEvent) (b : Book B A) (l : BookAnomalyLog)
      → apply_cancel e b ≡ (MapOrderBook.apply_cancel e b l).0
  unfolding apply_cancel cancel_known MapOrderBook.apply_cancel MapOrderBook.cancel_known
  apply_cancel-agrees e b l = elim (Option-cases (find e.order_id b.order_index)) [
    | inl unknown ↦ rw (unknown, apply_cancel, MapOrderBook.apply_cancel)
    | inr (r, known) ↦ rw (known, apply_cancel, MapOrderBook.apply_cancel)
  ]

  apply_modify-agrees :
      (e : MarketDataEvent) (b : Book B A) (l : BookAnomalyLog)
      → apply_modify e b ≡ (MapOrderBook.apply_modify e b l).0
  unfolding apply_modify modify_known rest_order MapOrderBook.apply_modify MapOrderBook.modify_known
      MapOrderBook.rest_order
  apply_modify-agrees e b l = elim (Option-cases (find e.order_id b.order_index)) [
    | inl unknown ↦
        rw (unknown, apply_modify, MapOrderBook.apply_modify)
          (elim (Bool-cases (rests_unpriced e)) [ inl skip ↦ rw skip | inr rests ↦ rw rests ])
    | inr (r, known) ↦ rw (known, apply_modify, MapOrderBook.apply_modify)
  ]

  dispatch-agrees :
      (a : Action) (e : MarketDataEvent) (b : Book B A) (l : BookAnomalyLog)
      → IsFreshAdd a (find e.order_id b.order_index)
      → dispatch a e b ≡ (MapOrderBook.dispatch a e b l).0
  unfolding dispatch MapOrderBook.dispatch
  dispatch-agrees Action.add e b l f = apply_add-agrees e b l f
  dispatch-agrees Action.cancel e b l f = apply_cancel-agrees e b l
  dispatch-agrees Action.modify e b l f = apply_modify-agrees e b l
  dispatch-agrees Action.clear e b l f = refl
  dispatch-agrees Action.trade e b l f = refl
  dispatch-agrees Action.fill e b l f = refl
  dispatch-agrees Action.none e b l f = refl
  dispatch-agrees (Action.other k) e b l f = refl

  -- A stream of events, applied in order.
  unfoldable pub run : List MarketDataEvent → Book B A → Book B A
  run [] b = b
  run (e ∷ es) b = run es (apply e b)

  -- No add of the stream names an order that is known when it comes.
  abbrev pub AllFresh : List MarketDataEvent → Book B A → Type 0
  AllFresh [] b = Unit
  AllFresh (e ∷ es) b =
      IsFreshAdd e.action (find e.order_id b.order_index) × AllFresh es (apply e b)

  -- On any stream of events in which no add names an order that is known, the Abseil book ends in the
  -- state in which the map book ends: the same levels, and the same order index.
  pub run-agrees :
      (es : List MarketDataEvent) (b : Book B A) (l : BookAnomalyLog)
      → AllFresh es b
      → run es b ≡ (MapRun.run es b l).0
  unfolding run apply MapRun.run MapOrderBook.apply
  run-agrees [] b l f = refl
  run-agrees (e ∷ es) b l f =
      run-agrees es (apply e b) (MapOrderBook.apply e b l).1 f.1
      ∙ ap (λ b'. (MapRun.run es b' (MapOrderBook.apply e b l).1).0)
          (dispatch-agrees e.action e b l f.0)
