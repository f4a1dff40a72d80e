-- ===== src/ShardedOrderBookRouter/Calls.antt =====
-- What holds of all shards of src/order_book/ShardedOrderBookRouter.hpp when the owner's thread begins a
-- call, and so after any steps of the threads.
use back_tester.Prelude.{
  ℕ, suc, ◌≡◌, ◌≢◌, refl, sym, ap, subst, ◌∙◌, ◌==◌, ==_iff, Bool, true, false, Bool-cases,
  if_cases, inl, inr, Option, none, some, List, [], ◌∷◌, ◌++◌, if◌then◌else◌, Dict, arith,
}
use back_tester.Event.{MarketDataEvent}
use back_tester.BookOps.{BookOps}
use back_tester.SimpleOrderBookRouter.{register}
use back_tester.ShardedOrderBookRouter.{shard_of, sent_to}
use back_tester.ShardedOrderBookRouter.Threads.{
  Item, Phase, System, Action, is_idle, pushed, send, apply_event, begin_print, begin_close, step,
  run,
}
use back_tester.ShardedOrderBookRouter.Worked.{pending}
use back_tester.ShardedOrderBookRouter.Marks.{IsSound, IsQuiet, IsQuiet-append, IsIssued-suc}
use back_tester.ShardedOrderBookRouter.Places.{IsPlaced}
use back_tester.ShardedOrderBookRouter.Pushes.{
  registered, registered-append, pushed_to-unsent, pushed_to-sent, pushed-closed, pending-pushed,
  IsSound-pushed,
}
use back_tester.ShardedOrderBookRouter.Owner.{
  update_cases, IsFine, IsGood, work-IsGood, IsGood-IsFine,
}
use back_tester.ShardedOrderBookRouter.Advance.{advance-IsGood}

is_idle-phase : (ph : Phase) → is_idle ph ≡ true → ph ≡ Phase.idle
is_idle-phase Phase.idle h = refl
is_idle-phase Phase.printing h = absurd (cc)
is_idle-phase (Phase.pushing k) h = absurd (cc)
is_idle-phase (Phase.waiting k) h = absurd (cc)
is_idle-phase (Phase.closing k) h = absurd (cc)
is_idle-phase (Phase.joining k) h = absurd (cc)

differ : (k s : ℕ) → k ≢ s → (k == s) ≡ false
differ k s apart = ground (arith, apart, ==_iff k s)

module _ {B : Type 0} ⦃ops : BookOps B⦄ (N : ℕ) where
  -- The events whose `apply` was called between the other calls of the owner, before its `close`.
  abbrev pub noted : Action → System B → List MarketDataEvent → List MarketDataEvent
  noted (Action.apply e) st es =
      if is_idle st.phase then (if st.closed then es else es ++ e ∷ []) else es
  noted a st es = es

  unfoldable pub accepted : List Action → System B → List MarketDataEvent → List MarketDataEvent
  unfolding step
  accepted [] st es = es
  accepted (a ∷ rest) st es = accepted rest (step N a st) (noted a st es)

  -- On a closed router every queue is closed, so that a push changes nothing.
  send_closed-IsGood :
      (es : List MarketDataEvent) (o : Option ℕ) (e : MarketDataEvent) (m : Dict ℕ ℕ)
      (st : System B)
      → st.phase ≡ Phase.idle
      → st.closed ≡ true
      → IsGood N es st
      → IsGood N es (send o e (record st { order_to_instrument = m }))
  unfolding send
  send_closed-IsGood es none e m st i shut g = record {
    known = λ c. absurd (let z = sym shut ∙ c in cc);
    fine = g.fine;
  }
  send_closed-IsGood es (some k) e m st i shut g = record {
    known = λ c. absurd (let z = sym shut ∙ c in cc);
    fine = λ s h.
        let P = IsFine N es st.phase st.closed st.syncs in
        let f = IsGood-IsFine N es Phase.idle st i g s h in
        let kept = pushed-closed (Item.event e) (st.shards s) (f.1.1 shut).1 in
        update_cases P st.shards k (pushed (Item.event e) (st.shards k)) s
          (λ e'.
            subst (λ (t : ℕ). P s (pushed (Item.event e) (st.shards t))) (sym e')
              (subst (P s) (sym kept) (g.fine s h)))
          (λ _. g.fine s h);
  }

  send-IsGood :
      (es : List MarketDataEvent) (o : Option ℕ) (e : MarketDataEvent) (st : System B)
      → shard_of N e (register e (registered es [])) ≡ o
      → st.phase ≡ Phase.idle
      → st.closed ≡ false
      → IsGood N es st
      → IsGood N
          (es ++ e ∷ [])
          (send o e (record st { order_to_instrument = register e st.order_to_instrument }))
  unfolding send
  send-IsGood es none e st at i opened g = record {
    known = λ c. ap (register e) (g.known opened) ∙ sym (registered-append es e []);
    fine = λ s h.
        let same = pushed_to-unsent N s es e (ap (sent_to s) at) in
        let f = g.fine s h in
        (subst (λ es'. IsSound es' st.closed st.syncs (st.shards s)) (sym same) f.0, f.1);
  }
  send-IsGood es (some k) e st at i opened g =
      let P = IsFine N (es ++ e ∷ []) st.phase st.closed st.syncs in
      record {
        known = λ c. ap (register e) (g.known opened) ∙ sym (registered-append es e []);
        fine = λ s h.
            let sh = st.shards s in
            let f = IsGood-IsFine N es Phase.idle st i g s h in
            let open_queue = f.0.accepts opened in
            let more = pending-pushed (Item.event e) sh open_queue in
            update_cases P st.shards k (pushed (Item.event e) (st.shards k)) s
              (λ e'.
                let hit = ap (sent_to s) at ∙ (==_iff k s).1 e' in
                subst (λ (t : ℕ). P s (pushed (Item.event e) (st.shards t))) (sym e')
                  (
                    subst (λ es'. IsSound es' st.closed st.syncs (pushed (Item.event e) sh))
                        (sym (pushed_to-sent N s es e hit))
                        (IsSound-pushed (Item.event e) sh open_queue f.0 tt),
                    subst (λ ph. IsPlaced ph st.closed st.syncs s (pushed (Item.event e) sh))
                        (sym i)
                        (
                          subst IsQuiet (sym more) (IsQuiet-append (pending sh) e f.1.0),
                          λ c. absurd (let z = sym opened ∙ c in cc),
                        ),
                  ))
              (λ apart.
                let miss = ap (sent_to s) at ∙ differ k s apart in
                let f' = g.fine s h in
                (
                  subst (λ es'. IsSound es' st.closed st.syncs sh)
                      (sym (pushed_to-unsent N s es e miss)) f'.0,
                  f'.1,
                ));
      }

  apply-IsGood :
      (es : List MarketDataEvent) (e : MarketDataEvent) (st : System B)
      → IsGood N es st
      → IsGood N (noted (Action.apply e) st es) (step N (Action.apply e) st)
  unfolding step apply_event
  apply-IsGood es e st g =
      let done = apply_event N e st in
      let es' = λ (c : Bool). if c then es else es ++ e ∷ [] in
      let P = λ (b : Bool). IsGood N (if b then es' st.closed else es) (if b then done else st) in
      elim (Bool-cases (is_idle st.phase)) [
        | inr busy ↦ subst P (sym busy) g
        | inl rests ↦
            let i = is_idle-phase st.phase rests in
            let at = λ (opened : st.closed ≡ false).
              ap (λ m. shard_of N e (register e m)) (sym (g.known opened)) in
            subst P (sym rests) (elim (Bool-cases st.closed) [
              | inl shut ↦
                  subst (λ c. IsGood N (es' c) done) (sym shut)
                    (send_closed-IsGood es _ e (register e st.order_to_instrument) st i shut g)
              | inr opened ↦
                  subst (λ c. IsGood N (es' c) done) (sym opened)
                    (send-IsGood es _ e st (at opened) i opened g)
            ])
      ]

  begin_print-IsGood :
      (es : List MarketDataEvent) (st : System B)
      → st.phase ≡ Phase.idle
      → IsGood N es st
      → IsGood N es (begin_print st)
  begin_print-IsGood es st i g =
      if_cases (IsGood N es) st.closed
        (λ shut. record {
          known = g.known;
          fine = λ s h.
              let f = IsGood-IsFine N es Phase.idle st i g s h in
              (f.0, ((f.1.1 shut).0, λ c. (f.1.1 shut).1));
        })
        (λ opened. record {
          known = g.known;
          fine = λ s h.
              let f = IsGood-IsFine N es Phase.idle st i g s h in
              (
                record {
                  done = f.0.done;
                  applied = f.0.applied;
                  rest = f.0.rest;
                  accepts = f.0.accepts;
                  over = f.0.over;
                  fresh = λ m lt. f.0.fresh m (omega (arith, lt));
                  issued = IsIssued-suc st.syncs (pending (st.shards s)) f.0.issued;
                },
                (
                  opened,
                  λ b. absurd (omega (arith, b)),
                  λ _. (f.1.0, f.0.fresh (suc st.syncs) (omega arith)),
                ),
              );
        })

  begin_close-IsGood :
      (es : List MarketDataEvent) (st : System B)
      → st.phase ≡ Phase.idle
      → IsGood N es st
      → IsGood N es (begin_close st)
  begin_close-IsGood es st i g =
      if_cases (IsGood N es) st.closed (λ shut. g)
        (λ opened. record {
          known = λ c. g.known opened;
          fine = λ s h.
              let f = IsGood-IsFine N es Phase.idle st i g s h in
              (
                record {
                  done = f.0.done;
                  applied = f.0.applied;
                  rest = f.0.rest;
                  accepts = λ c. absurd (cc);
                  over = f.0.over;
                  fresh = f.0.fresh;
                  issued = f.0.issued;
                },
                (refl, f.1.0, λ b. absurd (omega (arith, b))),
              );
        })

  step-IsGood :
      (es : List MarketDataEvent) (a : Action) (st : System B)
      → IsGood N es st
      → IsGood N (noted a st es) (step N a st)
  unfolding step
  step-IsGood es (Action.apply e) st g = apply-IsGood es e st g
  step-IsGood es Action.print st g =
      if_cases (IsGood N es) (is_idle st.phase)
        (λ rests. begin_print-IsGood es st (is_idle-phase st.phase rests) g) (λ _. g)
  step-IsGood es Action.close st g =
      if_cases (IsGood N es) (is_idle st.phase)
        (λ rests. begin_close-IsGood es st (is_idle-phase st.phase rests) g) (λ _. g)
  step-IsGood es Action.advance st g = advance-IsGood N es st.phase st refl g
  step-IsGood es (Action.work s) st g = work-IsGood N es s st g

  pub run-IsGood :
      (acts : List Action) (st : System B) (es : List MarketDataEvent)
      → IsGood N es st
      → IsGood N (accepted acts st es) (run N acts st)
  unfolding run accepted
  run-IsGood [] st es g = g
  run-IsGood (a ∷ acts) st es g =
      run-IsGood acts (step N a st) (noted a st es) (step-IsGood es a st g)
