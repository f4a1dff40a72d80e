-- ===== src/ShardedOrderBookRouter/Pushes.antt =====
-- What a push of the owner's thread does to a shard of src/order_book/ShardedOrderBookRouter.hpp, and
-- what is pushed to a shard by one more event.
use back_tester.Prelude.{
  ℕ, ◌≡◌, refl, sym, ap, subst, ◌∙◌, Bool, true, false, Bool-cases, inl, inr, List, [], ◌∷◌, ◌++◌,
  append_assoc, append-nil, if◌then◌else◌, Dict,
}
use back_tester.Event.{MarketDataEvent}
use back_tester.BookOps.{BookOps}
use back_tester.BlockingQueue.{Queue, Outcome, push_impl}
use back_tester.SimpleOrderBookRouter.{register}
use back_tester.ShardedOrderBookRouter.{shard_of, sent_to, pushed_to}
use back_tester.ShardedOrderBookRouter.Threads.{Item, Shard, pushed}
use back_tester.ShardedOrderBookRouter.Worked.{held, pending}
use back_tester.ShardedOrderBookRouter.Marks.{
  IsSound, IsIssued, events_in, events_in-append, IsIssued-append,
}

-- The map from orders to instruments after a stream of events.
unfoldable pub registered : List MarketDataEvent → Dict ℕ ℕ → Dict ℕ ℕ
unfolding register
registered [] m = m
registered (e ∷ es) m = registered es (register e m)

pub registered-append :
    (es : List MarketDataEvent) (e : MarketDataEvent) (m : Dict ℕ ℕ)
    → registered (es ++ e ∷ []) m ≡ register e (registered es m)
unfolding registered
registered-append [] e m = refl
registered-append (d ∷ es) e m = registered-append es e (register d m)

pushed_to-append :
    (N s : ℕ) (es : List MarketDataEvent) (e : MarketDataEvent) (m : Dict ℕ ℕ)
    → pushed_to N s (es ++ e ∷ []) m
      ≡ pushed_to N s es m
        ++ (if sent_to s (shard_of N e (register e (registered es m))) then e ∷ [] else [])
unfolding registered pushed_to
pushed_to-append N s [] e m = refl
pushed_to-append N s (d ∷ es) e m =
    let ih = pushed_to-append N s es e (register d m) in
    elim (Bool-cases (sent_to s (shard_of N d (register d m)))) [
      | inl sent ↦ rw sent (ap (λ r. d ∷ r) ih)
      | inr unsent ↦ rw unsent ih
    ]

-- What one more event adds to what is pushed to a shard.
pub pushed_to-unsent :
    (N s : ℕ) (es : List MarketDataEvent) (e : MarketDataEvent)
    → sent_to s (shard_of N e (register e (registered es []))) ≡ false
    → pushed_to N s (es ++ e ∷ []) [] ≡ pushed_to N s es []
pushed_to-unsent N s es e h =
    pushed_to-append N s es e []
    ∙ ap (λ (c : Bool). pushed_to N s es [] ++ (if c then e ∷ [] else [])) h
    ∙ append-nil (pushed_to N s es [])

pub pushed_to-sent :
    (N s : ℕ) (es : List MarketDataEvent) (e : MarketDataEvent)
    → sent_to s (shard_of N e (register e (registered es []))) ≡ true
    → pushed_to N s (es ++ e ∷ []) [] ≡ pushed_to N s es [] ++ e ∷ []
pushed_to-sent N s es e h =
    pushed_to-append N s es e []
    ∙ ap (λ (c : Bool). pushed_to N s es [] ++ (if c then e ∷ [] else [])) h

module _ {B : Type 0} where
  -- A closed queue takes nothing.
  pub pushed-closed : (item : Item) (sh : Shard B) → sh.queue.closed ≡ true → pushed item sh ≡ sh
  unfolding pushed push_impl
  pushed-closed item sh h =
      let put = record sh.queue { queue = sh.queue.queue ++ item ∷ [] } in
      ap (λ (r : Outcome Item × Queue Item). record sh { queue = r.1 })
        (ap (λ c. if c then (Outcome.threw, sh.queue) else (Outcome.done, put)) h)

  pushed-open :
      (item : Item) (sh : Shard B)
      → sh.queue.closed ≡ false
      → pushed item sh
        ≡ record sh { queue = record sh.queue { queue = sh.queue.queue ++ item ∷ [] } }
  unfolding pushed push_impl
  pushed-open item sh h =
      let put = record sh.queue { queue = sh.queue.queue ++ item ∷ [] } in
      ap (λ (r : Outcome Item × Queue Item). record sh { queue = r.1 })
        (ap (λ c. if c then (Outcome.threw, sh.queue) else (Outcome.done, put)) h)

  module _ ⦃ops : BookOps B⦄ (item : Item) (sh : Shard B) (h : sh.queue.closed ≡ false) where
    pub pending-pushed : pending (pushed item sh) ≡ pending sh ++ item ∷ []
    pending-pushed =
        ap pending (pushed-open item sh h)
        ∙ sym (append_assoc (held sh.in_hand) sh.queue.queue (item ∷ []))

    pub fulfilled-pushed : (pushed item sh).fulfilled ≡ sh.fulfilled
    unfolding pushed
    fulfilled-pushed = refl

    pub IsSound-pushed :
        {sent : List MarketDataEvent} {closed : Bool} {n : ℕ}
        → IsSound sent closed n sh
        → IsIssued n (item ∷ [])
        → IsSound (sent ++ events_in (item ∷ [])) closed n (pushed item sh)
    unfolding pushed
    IsSound-pushed {n = n} s i = record {
      done = s.done;
      applied = λ l. s.applied l;
      rest =
          ap (λ x. s.done ++ events_in x) pending-pushed
          ∙ ap (λ x. s.done ++ x) (events_in-append (pending sh) (item ∷ []))
          ∙ sym (append_assoc s.done (events_in (pending sh)) (events_in (item ∷ [])))
          ∙ ap (λ x. x ++ events_in (item ∷ [])) s.rest;
      accepts = λ k. ap (λ (x : Shard B). x.queue.closed) (pushed-open item sh h) ∙ h;
      over = λ k. absurd (let z = sym (s.over k).1 ∙ h in cc);
      fresh = λ m lt. s.fresh m lt;
      issued =
          subst (IsIssued n) (sym pending-pushed)
            (IsIssued-append n (pending sh) (item ∷ []) s.issued i);
    }
