-- ===== src/ShardedOrderBookRouter/Advance.antt =====
-- What holds of all shards of src/order_book/ShardedOrderBookRouter.hpp under the steps of the owner's
-- thread inside `close`, and so under all its steps inside a call.
use back_tester.Prelude.{
  ℕ, suc, ◌≡◌, refl, sym, ap, subst, ◌∙◌, ltb, ◌==◌, ==_iff, Bool-cases, if_cases, inl, inr, List,
  arith,
}
use back_tester.Event.{MarketDataEvent}
use back_tester.BookOps.{BookOps}
use back_tester.BlockingQueue.{close_impl}
use back_tester.ShardedOrderBookRouter.Threads.{Shard, Phase, System, advance_from}
use back_tester.ShardedOrderBookRouter.Marks.{IsQuiet}
use back_tester.ShardedOrderBookRouter.Owner.{
  update_cases, below_suc, IsFine, IsGood, IsGood-IsFine, pushing-IsGood, waiting-IsGood,
}

module _ {B : Type 0} ⦃ops : BookOps B⦄ (N : ℕ) where
  closing-IsGood :
      (es : List MarketDataEvent) (k : ℕ) (st : System B)
      → st.phase ≡ Phase.closing k
      → IsGood N es st
      → IsGood N es (advance_from N (Phase.closing k) st)
  unfolding advance_from
  closing-IsGood es k st e g =
      let fine = IsGood-IsFine N es (Phase.closing k) st e g in
      let shut = λ (sh : Shard B). record sh { queue = close_impl sh.queue } in
      let P = IsFine N es (Phase.closing (suc k)) st.closed st.syncs in
      if_cases (IsGood N es) (ltb k N)
        (λ more. record {
          known = g.known;
          fine = λ s h.
              let f = fine s h in
              update_cases P st.shards k (shut (st.shards k)) s
                (λ e'.
                  subst (λ (t : ℕ). P s (shut (st.shards t))) (sym e')
                    (
                      record {
                        done = f.0.done;
                        applied = f.0.applied;
                        rest = f.0.rest;
                        accepts = λ c. absurd (let z = sym f.1.0 ∙ c in cc);
                        over = λ o. ((f.0.over o).0, refl);
                        fresh = f.0.fresh;
                        issued = f.0.issued;
                      },
                      (f.1.0, f.1.1, λ _. refl),
                    ))
                (λ apart. (f.0, (f.1.0, f.1.1, λ b. f.1.2 (below_suc b (λ q. apart (sym q))))));
        })
        (λ last. record {
          known = g.known;
          fine = λ s h.
              let f = fine s h in
              (
                f.0,
                (f.1.0, f.1.1, f.1.2 (ground (arith, h, last)), λ b. absurd (omega (arith, b))),
              );
        })

  joining-IsGood :
      (es : List MarketDataEvent) (k : ℕ) (st : System B)
      → st.phase ≡ Phase.joining k
      → IsGood N es st
      → IsGood N es (advance_from N (Phase.joining k) st)
  unfolding advance_from
  joining-IsGood es k st e g =
      let fine = IsGood-IsFine N es (Phase.joining k) st e g in
      if_cases (IsGood N es) (ltb k N)
        (λ more.
          if_cases (IsGood N es) (st.shards k).ended
            (λ over. record {
              known = g.known;
              fine = λ s h.
                  let f = fine s h in
                  (
                    f.0,
                    (
                      f.1.0,
                      f.1.1,
                      f.1.2,
                      λ b. elim (Bool-cases (s == k)) [
                        | inl same ↦
                            let own = ap (λ (t : ℕ). (st.shards t).ended) ((==_iff s k).0 same) in
                            (f.0.over (own ∙ over)).0
                        | inr apart ↦ f.1.3 (ground (arith, b, apart))
                      ],
                    ),
                  );
            })
            (λ _. g))
        (λ last. record {
          known = g.known;
          fine = λ s h.
              let f = fine s h in (f.0, (f.1.1, λ c. (f.1.3 (ground (arith, h, last)), f.1.2)));
        })

  pub advance-IsGood :
      (es : List MarketDataEvent) (ph : Phase) (st : System B)
      → st.phase ≡ ph
      → IsGood N es st
      → IsGood N es (advance_from N ph st)
  unfolding advance_from
  advance-IsGood es Phase.idle st e g = g
  advance-IsGood es Phase.printing st e g = record {
    known = g.known;
    fine = λ s h.
        let f = IsGood-IsFine N es Phase.printing st e g s h in
        (f.0, (subst IsQuiet (sym f.1.0) tt, λ c. (f.1.0, f.1.1 c)));
  }
  advance-IsGood es (Phase.pushing k) st e g = pushing-IsGood N es k st e g
  advance-IsGood es (Phase.waiting k) st e g = waiting-IsGood N es k st e g
  advance-IsGood es (Phase.closing k) st e g = closing-IsGood es k st e g
  advance-IsGood es (Phase.joining k) st e g = joining-IsGood es k st e g
