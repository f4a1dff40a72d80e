-- ===== src/ShardedOrderBookRouter/Draining.antt =====
-- The worker of a shard of src/order_book/ShardedOrderBookRouter.hpp can deal with all that is pending on
-- it, wherever the owner's thread stands.
use back_tester.Prelude.{
  ℕ, ◌<◌, ◌≡◌, refl, sym, ap, ◌∙◌, ◌==◌, ==_iff, true, false, Bool-cases, inl, inr, Option, none,
  some, List, [], ◌∷◌, ◌++◌, All, if◌then◌else◌, if_cases, subst, arith,
}
use back_tester.Event.{MarketDataEvent}
use back_tester.AnomalyLog.{BookAnomalyLog}
use back_tester.BookOps.{BookOps}
use back_tester.BlockingQueue.{Outcome, pop_from, pop_impl}
use back_tester.ShardedOrderBookRouter.Threads.{
  Item, Shard, Phase, System, Action, popped, visit, work_on, step, run,
}
use back_tester.ShardedOrderBookRouter.Worked.{held, pending}
use back_tester.ShardedOrderBookRouter.Owner.{IsGood, work-IsGood}

-- The steps of a worker, and of the owner inside a call.
abbrev pub IsInner : Action → Type 0
IsInner (Action.apply e) = ⊥
IsInner Action.print = ⊥
IsInner Action.close = ⊥
IsInner Action.advance = Unit
IsInner (Action.work s) = Unit

pub nothing_pending :
    (o : Option Item) (xs : List Item) → held o ++ xs ≡ [] → (o ≡ none) × (xs ≡ [])
nothing_pending none xs h = (refl, h)
nothing_pending (some item) xs h = absurd (cc)

module _ {B : Type 0} ⦃ops : BookOps B⦄ where
  work_on-held :
      (o : Option Item) (item : Item) (sh : Shard B) (l : BookAnomalyLog)
      → o ≡ some item
      → ((work_on o sh l).0.in_hand ≡ none) × ((work_on o sh l).0.queue.queue ≡ sh.queue.queue)
  unfolding visit pop_impl
  work_on-held none item sh l h = absurd (cc)
  work_on-held (some (Item.event e)) item sh l h = (refl, refl)
  work_on-held (some (Item.promise n)) item sh l h = (refl, refl)

  popped-first :
      (q : List Item) (x : Item) (xs : List Item) (sh : Shard B)
      → q ≡ x ∷ xs
      → ((popped (pop_from q sh.queue) sh).in_hand ≡ some x)
        × ((popped (pop_from q sh.queue) sh).queue.queue ≡ xs)
  popped-first [] x xs sh e = absurd (cc)
  popped-first (y ∷ ys) x xs sh e = (cc, cc)

  popped-end :
      (q : List Item) (sh : Shard B)
      → q ≡ []
      → sh.queue.closed ≡ true
      → (popped (pop_from q sh.queue) sh).ended ≡ true
  popped-end [] sh e shut =
      subst (λ c. (popped (if c then Outcome.ended else Outcome.waits, sh.queue) sh).ended ≡ true)
        (sym shut) refl
  popped-end (y ∷ ys) sh e shut = absurd (cc)

  work_on-pop :
      (o : Option Item) (x : Item) (xs : List Item) (sh : Shard B) (l : BookAnomalyLog)
      → o ≡ none
      → sh.ended ≡ false
      → sh.queue.queue ≡ x ∷ xs
      → ((work_on o sh l).0.in_hand ≡ some x) × ((work_on o sh l).0.queue.queue ≡ xs)
  unfolding visit pop_impl
  work_on-pop (some item) x xs sh l h runs e = absurd (cc)
  work_on-pop none x xs sh l h runs e =
      if_cases (λ (t : Shard B). (t.in_hand ≡ some x) × (t.queue.queue ≡ xs)) sh.ended
        (λ over. absurd (cc)) (λ _. popped-first sh.queue.queue x xs sh e)

  pub work_on-end :
      (o : Option Item) (sh : Shard B) (l : BookAnomalyLog)
      → o ≡ none
      → sh.queue.queue ≡ []
      → sh.queue.closed ≡ true
      → (work_on o sh l).0.ended ≡ true
  unfolding visit pop_impl
  work_on-end (some item) sh l h e shut = absurd (cc)
  work_on-end none sh l h e shut =
      if_cases (λ (t : Shard B). t.ended ≡ true) sh.ended (λ over. over)
        (λ _. popped-end sh.queue.queue sh e shut)

  module _ (N : ℕ) where
    -- The owner can come to `ph`.
    unfoldable pub Leads : Phase → System B → Type 0
    unfolding run
    Leads ph st = (rest : List Action) × All IsInner rest × ((run N rest st).phase ≡ ph)

    pub leads_by :
        (ph : Phase) (a : Action) (st : System B) → IsInner a → Leads ph (step N a st) → Leads ph st
    unfolding run Leads
    leads_by ph a st i (rest, all, h) = (a ∷ rest, (i, all), h)

    pub step-worked :
        (k : ℕ) (st : System B)
        → (step N (Action.work k) st).shards k
          ≡ (work_on (st.shards k).in_hand (st.shards k) st.log).0
    unfolding step
    step-worked k st =
        if_cases (λ v. v ≡ (work_on (st.shards k).in_hand (st.shards k) st.log).0) (k == k)
          (λ _. refl) (λ apart. absurd (ground (arith, apart, ==_iff k k)))

    -- Where the owner stands at `ph`, the worker of `k` can deal with all that is pending.
    module _ (es : List MarketDataEvent) (ph target : Phase) (k : ℕ) (some_shard : k < N) where
      abbrev after_work : System B → System B
      unfolding step
      after_work st = step N (Action.work k) st

      runs_on :
          (x : Item) (xs : List Item) (st : System B)
          → IsGood N es st
          → pending (st.shards k) ≡ x ∷ xs
          → (st.shards k).ended ≡ false
      runs_on x xs st g p = elim (Bool-cases (st.shards k).ended) [
        | inl over ↦ absurd (let z = ((g.fine k some_shard).0.over over).0 in cc)
        | inr runs ↦ runs
      ]

      drain :
          (xs : List Item) (st : System B)
          → IsGood N es st
          → st.phase ≡ ph
          → (st.shards k).in_hand ≡ none
          → (st.shards k).queue.queue ≡ xs
          → ((st' : System B)
              → IsGood N es st'
              → st'.phase ≡ ph
              → pending (st'.shards k) ≡ []
              → Leads target st')
          → Leads target st
      unfolding step
      drain [] st g at h e go = go st g at (ap (λ o. held o ++ (st.shards k).queue.queue) h ∙ e)
      drain (x ∷ xs) st g at h e go =
          let st1 = after_work st in
          let p1 = step-worked k st in
          let p2 = step-worked k st1 in
          let runs = runs_on x xs st g (ap (λ o. held o ++ (st.shards k).queue.queue) h ∙ e) in
          let f = work_on-pop (st.shards k).in_hand x xs (st.shards k) st.log h runs e in
          let i1 = ap (λ t. t.in_hand) p1 ∙ f.0 in
          let w = work_on-held (st1.shards k).in_hand x (st1.shards k) st1.log i1 in
          leads_by target (Action.work k) st tt (
            leads_by target (Action.work k) st1 tt (
              drain xs (after_work st1) (work-IsGood N es k st1 (work-IsGood N es k st g)) at
                (ap (λ t. t.in_hand) p2 ∙ w.0)
                (ap (λ t. t.queue.queue) p2 ∙ w.1 ∙ ap (λ t. t.queue.queue) p1 ∙ f.1) go))

      pub drained :
          (o : Option Item) (st : System B)
          → (st.shards k).in_hand ≡ o
          → IsGood N es st
          → st.phase ≡ ph
          → ((st' : System B)
              → IsGood N es st'
              → st'.phase ≡ ph
              → pending (st'.shards k) ≡ []
              → Leads target st')
          → Leads target st
      unfolding step
      drained none st h g at go = drain (st.shards k).queue.queue st g at h refl go
      drained (some item) st h g at go =
          let p = step-worked k st in
          let w = work_on-held (st.shards k).in_hand item (st.shards k) st.log h in
          leads_by target (Action.work k) st tt (
            drain (st.shards k).queue.queue (after_work st) (work-IsGood N es k st g) at
              (ap (λ t. t.in_hand) p ∙ w.0) (ap (λ t. t.queue.queue) p ∙ w.1) go)
