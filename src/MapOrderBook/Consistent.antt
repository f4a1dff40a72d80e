-- ===== src/MapOrderBook/Consistent.antt =====
-- Each event of src/order_book/MapOrderBook.cpp keeps the levels equal to the sums of the orders.
use back_tester.Prelude.{
  ℕ, ◌-◌, ◌≤◌, ◌%◌, ◌^◌, ◌≡◌, refl, ap, ◌∙◌, true, false, Option, none, some, List, [], ◌∷◌, ℤ, pos,
  ◌-ℤ◌, ltb_ℤ, ◌==◌, Bool-cases, Option-cases, inl, inr, if◌then◌else◌, nat_key, find, arith,
}
use back_tester.Event.{Side, Action, MarketDataEvent}
use back_tester.AnomalyLog.{BookAnomalyLog}
use back_tester.MapOrderBook.{
  OrderRecord, LevelMaps, Book, record_of, modified, rests_unpriced, empty_book, remove_from_level,
  rest_order, apply_add, cancel_known, apply_cancel, modify_known, apply_modify, dispatch, apply,
  volume_at,
}
use back_tester.MapOrderBook.Levels.{index-remove_from_level}
use back_tester.MapOrderBook.Volume.{
  resting, IsConsistent, settled, added-IsConsistent, replaced-IsConsistent, shrunk-IsConsistent,
  kept, resting-kept, kept-HasUniqueKeys,
}

sub_pos : (a b : ℕ) → b ≤ a → pos a -ℤ pos b ≡ pos (a - b)
unfolding ◌-ℤ◌
sub_pos a b h = ground arith

-- A cancel of a known order names a remaining size that is no larger than what rests.
abbrev pub Fits : Action → ℕ → Option OrderRecord → Type 0
Fits Action.cancel n (some r) = n ≤ r.size
Fits Action.cancel n none = Unit
Fits _ n o = Unit

module _ {B A : Type 0} ⦃maps : LevelMaps B A⦄ where
  open maps use {bid_map, ask_map}

  cancel_known-eq :
      (e : MarketDataEvent) (r : OrderRecord) (b : Book B A)
      → let delta = pos r.size -ℤ pos e.size in
        let b' = if ltb_ℤ (pos 0) delta then remove_from_level r.side r.price delta b else b in
        cancel_known e r b ≡ record b' { order_index = kept e r b'.order_index }
  unfolding cancel_known
  cancel_known-eq e r b = elim (Bool-cases (e.size == 0)) [
    | inl zero_size ↦ rw zero_size
    | inr more ↦ rw more
  ]

  cancel_known-IsConsistent :
      (e : MarketDataEvent) (r : OrderRecord) (b : Book B A)
      → IsConsistent b
      → find e.order_id b.order_index ≡ some r
      → e.size ≤ r.size
      → IsConsistent (cancel_known e r b)
  cancel_known-IsConsistent e r b c known le =
      rw (cancel_known-eq e r b, sub_pos r.size e.size le)
        (elim (Bool-cases (ltb_ℤ (pos 0) (pos (r.size - e.size)))) [
          | inl less ↦ rw less (
              shrunk-IsConsistent r (r.size - e.size) b c
                (ap (kept e r) (index-remove_from_level r.side r.price (pos (r.size - e.size)) b))
                (kept-HasUniqueKeys e r b.order_index c.unique)
                (λ s p. resting-kept s p e r b.order_index c.unique known le))
          | inr same ↦ rw same (
              settled b refl (kept-HasUniqueKeys e r b.order_index c.unique) (λ s p.
                c.summed s p
                ∙ ap pos (ground (arith, resting-kept s p e r b.order_index c.unique known le))))
        ])

  -- The levels of the empty book show the sums of its orders.
  pub empty_book-IsConsistent : IsConsistent {B = B} {A = A} empty_book
  empty_book-IsConsistent = record {
    unique = tt;
    summed = λ s p. ground (arith, bid_map.level_at-empty p, ask_map.level_at-empty p);
  }

  apply_add-IsConsistent :
      (e : MarketDataEvent) (b : Book B A) (l : BookAnomalyLog)
      → IsConsistent b
      → IsConsistent (apply_add e b l).0
  unfolding apply_add rest_order
  apply_add-IsConsistent e b l c = elim (Bool-cases (rests_unpriced e)) [
    | inl skip ↦ rw skip c
    | inr rests ↦ rw rests (elim (Option-cases (find e.order_id b.order_index)) [
      | inl fresh ↦ rw fresh (added-IsConsistent e.order_id (record_of e) b c fresh)
      | inr (r, known) ↦ rw known (replaced-IsConsistent e.order_id r (record_of e) b c known)
    ])
  ]

  apply_cancel-IsConsistent :
      (e : MarketDataEvent) (b : Book B A) (l : BookAnomalyLog)
      → IsConsistent b
      → Fits Action.cancel e.size (find e.order_id b.order_index)
      → IsConsistent (apply_cancel e b l).0
  unfolding apply_cancel
  apply_cancel-IsConsistent e b l c f = elim (Option-cases (find e.order_id b.order_index)) [
    | inl unknown ↦ rw (unknown, apply_cancel) c
    | inr (r, known) ↦
        rw (known, apply_cancel) (cancel_known-IsConsistent e r b c known (rw known at f))
  ]

  apply_modify-IsConsistent :
      (e : MarketDataEvent) (b : Book B A) (l : BookAnomalyLog)
      → IsConsistent b
      → IsConsistent (apply_modify e b l).0
  unfolding apply_modify modify_known rest_order
  apply_modify-IsConsistent e b l c = elim (Option-cases (find e.order_id b.order_index)) [
    | inl unknown ↦
        rw (unknown, apply_modify)
          (elim (Bool-cases (rests_unpriced e)) [
            | inl skip ↦ rw skip c
            | inr rests ↦ rw rests (added-IsConsistent e.order_id (record_of e) b c unknown)
          ])
    | inr (r, known) ↦
        rw (known, apply_modify) (replaced-IsConsistent e.order_id r (modified e r) b c known)
  ]

  dispatch-IsConsistent :
      (a : Action) (e : MarketDataEvent) (b : Book B A) (l : BookAnomalyLog)
      → IsConsistent b
      → Fits a e.size (find e.order_id b.order_index)
      → IsConsistent (dispatch a e b l).0
  unfolding dispatch
  dispatch-IsConsistent Action.add e b l c f = apply_add-IsConsistent e b l c
  dispatch-IsConsistent Action.cancel e b l c f = apply_cancel-IsConsistent e b l c f
  dispatch-IsConsistent Action.modify e b l c f = apply_modify-IsConsistent e b l c
  dispatch-IsConsistent Action.clear e b l c f = empty_book-IsConsistent
  dispatch-IsConsistent Action.trade e b l c f = c
  dispatch-IsConsistent Action.fill e b l c f = c
  dispatch-IsConsistent Action.none e b l c f = c
  dispatch-IsConsistent (Action.other k) e b l c f = c

  -- If every level of a book shows the sum of the orders that the index holds at it, so does every
  -- level after any event, provided that a cancel of a known order does not ask to keep more than
  -- what rests.
  pub apply-IsConsistent_bounded :
      (e : MarketDataEvent) (b : Book B A) (l : BookAnomalyLog)
      → IsConsistent b
      → Fits e.action e.size (find e.order_id b.order_index)
      → IsConsistent (apply e b l).0
  unfolding apply
  apply-IsConsistent_bounded e b l c f = dispatch-IsConsistent e.action e b l c f

  -- A stream of events, applied in order.
  unfoldable pub run : List MarketDataEvent → Book B A → BookAnomalyLog → Book B A × BookAnomalyLog
  run [] b l = (b, l)
  run (e ∷ es) b l = let (b', l') = apply e b l in run es b' l'

  -- Each cancel of the stream fits the book that it meets.
  abbrev pub AllFit : List MarketDataEvent → Book B A → BookAnomalyLog → Type 0
  AllFit [] b l = Unit
  AllFit (e ∷ es) b l =
      Fits e.action e.size (find e.order_id b.order_index)
      × AllFit es (apply e b l).0 (apply e b l).1

  run-IsConsistent :
      (es : List MarketDataEvent) (b : Book B A) (l : BookAnomalyLog)
      → IsConsistent b
      → AllFit es b l
      → IsConsistent (run es b l).0
  unfolding run
  run-IsConsistent [] b l c f = c
  run-IsConsistent (e ∷ es) b l c f =
      run-IsConsistent es (apply e b l).0 (apply e b l).1 (apply-IsConsistent_bounded e b l c f.0)
        f.1

  volume_at-resting :
      (b : Book B A) (p : ℤ)
      → IsConsistent b
      → (volume_at Side.buy p b ≡ resting true p b.order_index % 2 ^ 64)
        × (volume_at Side.sell p b ≡ resting false p b.order_index % 2 ^ 64)
  unfolding volume_at
  volume_at-resting b p c = ground (arith, c.summed true p, c.summed false p)

  -- After any stream of events, in which no cancel of a known order asks to keep more than what rests,
  -- from a book whose levels show the sums of their orders, the volume at each price of each side is
  -- the sum of the sizes of the orders that the order index holds there, modulo 2 ^ 64.
  pub volume_at-run_bounded :
      (es : List MarketDataEvent) (b : Book B A) (l : BookAnomalyLog) (p : ℤ)
      → IsConsistent b
      → AllFit es b l
      → (volume_at Side.buy p (run es b l).0 ≡ resting true p (run es b l).0.order_index % 2 ^ 64)
        × (volume_at Side.sell p (run es b l).0
            ≡ resting false p (run es b l).0.order_index % 2 ^ 64)
  volume_at-run_bounded es b l p c f =
      volume_at-resting (run es b l).0 p (run-IsConsistent es b l c f)
