-- ===== src/ShardedOrderBookRouter/Worked.antt =====
-- What a step of a worker of src/order_book/ShardedOrderBookRouter.hpp does to its shard.
use back_tester.Prelude.{
  ℕ, ◌≡◌, refl, sym, ap, subst, ◌∙◌, Bool, true, Bool-cases, ◌⊎◌, inl, inr, Option, none, some,
  List, [], ◌∷◌, ◌++◌, if◌then◌else◌,
}
use back_tester.Event.{MarketDataEvent}
use back_tester.AnomalyLog.{BookAnomalyLog}
use back_tester.BookOps.{BookOps}
use back_tester.BlockingQueue.{Outcome, pop_from, pop_impl}
use back_tester.SimpleOrderBookRouter
use back_tester.ShardedOrderBookRouter.Threads.{Item, Shard, popped, visit, work_on, update}

abbrev pub held : Option Item → List Item
held none = []
held (some item) = item ∷ []

module _ {B : Type 0} where
  -- What a shard has not yet dealt with.
  abbrev pub pending : Shard B → List Item
  pending sh = held sh.in_hand ++ sh.queue.queue

  module _ ⦃ops : BookOps B⦄ where
    -- The first of what is pending is dealt with, or nothing is.
    pub data Worked (sh : Shard B) (l : BookAnomalyLog) (sh' : Shard B) : Type 0 where
      rests :
          pending sh' ≡ pending sh
          → sh'.router ≡ sh.router
          → sh'.fulfilled ≡ sh.fulfilled
          → (sh'.ended ≡ true → (sh.ended ≡ true) ⊎ ((pending sh ≡ []) × (sh.queue.closed ≡ true)))
          → sh'.queue.closed ≡ sh.queue.closed
          → Worked sh l sh'
      applies :
          (e : MarketDataEvent)
          → pending sh ≡ Item.event e ∷ pending sh'
          → sh'.router ≡ (SimpleOrderBookRouter.apply e sh.router l).0
          → sh'.fulfilled ≡ sh.fulfilled
          → sh'.ended ≡ sh.ended
          → sh'.queue.closed ≡ sh.queue.closed
          → Worked sh l sh'
      fulfils :
          (n : ℕ)
          → pending sh ≡ Item.promise n ∷ pending sh'
          → sh'.router ≡ sh.router
          → sh'.fulfilled ≡ update sh.fulfilled n true
          → sh'.ended ≡ sh.ended
          → sh'.queue.closed ≡ sh.queue.closed
          → Worked sh l sh'

    visit-Worked :
        (item : Item) (sh : Shard B) (l : BookAnomalyLog)
        → sh.in_hand ≡ some item
        → Worked sh l (visit item sh l).0
    unfolding visit
    visit-Worked (Item.event e) sh l h =
        applies e (ap (λ o. held o ++ sh.queue.queue) h) refl refl refl refl
    visit-Worked (Item.promise n) sh l h =
        fulfils n (ap (λ o. held o ++ sh.queue.queue) h) refl refl refl refl

    popped-Worked :
        (xs : List Item) (sh : Shard B) (l : BookAnomalyLog)
        → sh.in_hand ≡ none
        → sh.queue.queue ≡ xs
        → Worked sh l (popped (pop_from xs sh.queue) sh)
    popped-Worked [] sh l h e =
        let after = λ (c : Bool).
          Worked sh l (popped (if c then Outcome.ended else Outcome.waits, sh.queue) sh) in
        elim (Bool-cases sh.queue.closed) [
          | inl shut ↦
              let empty = ap (λ o. held o ++ sh.queue.queue) h ∙ e in
              subst after (sym shut) (rests refl refl refl (λ _. inr (empty, shut)) refl)
          | inr accepts ↦ subst after (sym accepts) (rests refl refl refl (λ k. inl k) refl)
        ]
    popped-Worked (x ∷ xs) sh l h e =
        rests (sym (ap (λ o. held o ++ sh.queue.queue) h ∙ e)) refl refl (λ k. inl k) refl

    pub work_on-Worked :
        (o : Option Item) (sh : Shard B) (l : BookAnomalyLog)
        → sh.in_hand ≡ o
        → Worked sh l (work_on o sh l).0
    unfolding pop_impl visit
    work_on-Worked (some item) sh l h = visit-Worked item sh l h
    work_on-Worked none sh l h =
        let after = λ (c : Bool). Worked sh l (if c then sh else popped (pop_impl sh.queue) sh) in
        elim (Bool-cases sh.ended) [
          | inl over ↦ subst after (sym over) (rests refl refl refl (λ k. inl k) refl)
          | inr runs ↦ subst after (sym runs) (popped-Worked sh.queue.queue sh l h refl)
        ]
