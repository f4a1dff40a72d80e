-- ===== src/ShardedOrderBookRouter/Owner.antt =====
-- What holds of all shards of src/order_book/ShardedOrderBookRouter.hpp under the steps of the workers
-- and those of the owner's thread inside `sync_all`.
use back_tester.Prelude.{
  ℕ, suc, ◌<◌, ◌≡◌, ◌≢◌, refl, sym, ap, subst, ◌∙◌, ltb, ◌==◌, ==_iff, Bool, false, Bool-cases,
  if_cases, inl, inr, List, [], append-nil, if◌then◌else◌, arith,
}
use back_tester.Event.{MarketDataEvent}
use back_tester.AnomalyLog.{BookAnomalyLog}
use back_tester.BookOps.{BookOps}
use back_tester.SimpleOrderBookRouter.Routing
use back_tester.ShardedOrderBookRouter.{pushed_to}
use back_tester.ShardedOrderBookRouter.Threads.{
  Item, Shard, Phase, System, Action, update, start, pushed, advance_from, work_on, step,
}
use back_tester.ShardedOrderBookRouter.Worked.{pending, work_on-Worked}
use back_tester.ShardedOrderBookRouter.Marks.{IsSound, IsSound-Worked}
use back_tester.ShardedOrderBookRouter.Places.{IsMarked-set, IsPlaced, IsPlaced-Worked}
use back_tester.ShardedOrderBookRouter.Pushes.{
  registered, pending-pushed, fulfilled-pushed, IsSound-pushed,
}

-- What holds at `s` and stays at the others holds after an update at `s`.
pub update_cases {ℓ κ} :
    {A : Type ℓ} (P : ℕ → A → Type κ) (f : ℕ → A) (s : ℕ) (v : A) (t : ℕ)
    → (s ≡ t → P t v)
    → (s ≢ t → P t (f t))
    → P t (update f s v t)
update_cases P f s v t here there = elim (Bool-cases (s == t)) [
  | inl same ↦ subst (λ b. P t (if b then v else f t)) (sym same) (here ((==_iff s t).0 same))
  | inr apart ↦
      subst (λ b. P t (if b then v else f t)) (sym apart)
        (there (λ e. ground (arith, apart, e, ==_iff s t)))
]

pub below_suc : {s k : ℕ} → s < suc k → s ≢ k → s < k
below_suc b apart = ground arith

module _ {B : Type 0} ⦃ops : BookOps B⦄ (N : ℕ) where
  abbrev pub IsFine : List MarketDataEvent → Phase → Bool → ℕ → ℕ → Shard B → Type 0
  IsFine es ph closed n s sh = IsSound (pushed_to N s es []) closed n sh × IsPlaced ph closed n s sh

  pub record IsGood (es : List MarketDataEvent) (st : System B) : Type 0 where
    pub known : st.closed ≡ false → st.order_to_instrument ≡ registered es []
    pub fine : (s : ℕ) → s < N → IsFine es st.phase st.closed st.syncs s (st.shards s)

  pub start-IsGood : (l : BookAnomalyLog) → IsGood [] (start l)
  unfolding registered pushed_to Routing.run
  start-IsGood l = record {
    known = λ h. refl;
    fine = λ s h. (
      record {
        done = [];
        applied = λ l'. refl;
        rest = refl;
        accepts = λ k. refl;
        over = λ k. absurd (cc);
        fresh = λ m lt. refl;
        issued = tt;
      },
      (tt, λ k. absurd (cc)),
    );
  }

  pub work-IsGood :
      (es : List MarketDataEvent) (k : ℕ) (st : System B)
      → IsGood es st
      → IsGood es (step N (Action.work k) st)
  unfolding step
  work-IsGood es k st g =
      let sh = (work_on (st.shards k).in_hand (st.shards k) st.log).0 in
      let w = work_on-Worked (st.shards k).in_hand (st.shards k) st.log refl in
      record {
        known = g.known;
        fine = λ s h.
            update_cases (IsFine es st.phase st.closed st.syncs) st.shards k sh s
              (λ e.
                let f = g.fine k (subst (λ (t : ℕ). t < N) (sym e) h) in
                subst (λ (t : ℕ). IsFine es st.phase st.closed st.syncs t sh) e
                  (IsSound-Worked w f.0, IsPlaced-Worked st.phase st.closed st.syncs k w f.1))
              (λ _. g.fine s h);
      }

  -- The shards of a state in which the owner's thread is at `ph`.
  pub IsGood-IsFine :
      (es : List MarketDataEvent) (ph : Phase) (st : System B)
      → st.phase ≡ ph
      → IsGood es st
      → (s : ℕ) → s < N
      → IsFine es ph st.closed st.syncs s (st.shards s)
  IsGood-IsFine es ph st e g s h =
      subst (λ p. IsFine es p st.closed st.syncs s (st.shards s)) e (g.fine s h)

  pub pushing-IsGood :
      (es : List MarketDataEvent) (k : ℕ) (st : System B)
      → st.phase ≡ Phase.pushing k
      → IsGood es st
      → IsGood es (advance_from N (Phase.pushing k) st)
  unfolding advance_from
  pushing-IsGood es k st e g =
      let fine = IsGood-IsFine es (Phase.pushing k) st e g in
      let n = st.syncs in
      let sh = st.shards k in
      let sh' = pushed (Item.promise n) sh in
      let P = IsFine es (Phase.pushing (suc k)) st.closed n in
      if_cases (IsGood es) (ltb k N)
        (λ more.
          let f = fine k (ground (arith, more)) in
          let opened = f.0.accepts f.1.0 in
          let (quiet, unset) = f.1.2 (omega arith) in
          let sound =
            subst (λ es'. IsSound es' st.closed n sh') (append-nil (pushed_to N k es []))
              (IsSound-pushed (Item.promise n) sh opened f.0 (omega arith, tt)) in
          let last = pending-pushed (Item.promise n) sh opened in
          let left : sh'.fulfilled n ≡ false =
            ap (λ q. q n) (fulfilled-pushed (Item.promise n) sh opened) ∙ unset in
          if_cases (IsGood es) sh.queue.closed (λ shut. absurd (let z = sym opened ∙ shut in cc))
            (λ _. record {
              known = g.known;
              fine = λ s h.
                  update_cases P st.shards k sh' s
                    (λ e'.
                      subst (λ (t : ℕ). P t sh') e'
                        (
                          sound,
                          (
                            f.1.0,
                            λ _. inr (pending sh, last, quiet, left),
                            λ a. absurd (omega (arith, a)),
                          ),
                        ))
                    (λ apart.
                      let o = fine s h in
                      (
                        o.0,
                        (
                          o.1.0,
                          λ b. o.1.1 (below_suc b (λ q. apart (sym q))),
                          λ a. o.1.2 (omega (arith, a)),
                        ),
                      ));
            }))
        (λ last. record {
          known = g.known;
          fine = λ s h.
              let f = fine s h in
              (f.0, (f.1.0, f.1.1 (ground (arith, h, last)), λ b. absurd (omega (arith, b))));
        })

  pub waiting-IsGood :
      (es : List MarketDataEvent) (k : ℕ) (st : System B)
      → st.phase ≡ Phase.waiting k
      → IsGood es st
      → IsGood es (advance_from N (Phase.waiting k) st)
  unfolding advance_from
  waiting-IsGood es k st e g =
      let fine = IsGood-IsFine es (Phase.waiting k) st e g in
      let set = (st.shards k).fulfilled st.syncs in
      if_cases (IsGood es) (ltb k N)
        (λ more.
          if_cases (IsGood es) set
            (λ ready. record {
              known = g.known;
              fine = λ s h.
                  let f = fine s h in
                  (
                    f.0,
                    (
                      f.1.0,
                      f.1.1,
                      λ b. elim (Bool-cases (s == k)) [
                        | inl same ↦
                            let own = ap (λ (t : ℕ). (st.shards t).fulfilled st.syncs) in
                            IsMarked-set f.1.1 (own ((==_iff s k).0 same) ∙ ready)
                        | inr apart ↦ f.1.2 (ground (arith, b, apart))
                      ],
                    ),
                  );
            })
            (λ _. g))
        (λ last. record {
          known = g.known;
          fine = λ s h.
              let f = fine s h in
              (f.0, (f.1.2 (ground (arith, h, last)), λ c. absurd (let z = sym f.1.0 ∙ c in cc)));
        })
