-- ===== src/ShardedOrderBookRouter/Progress.antt =====
-- `sync_all` and `close` of src/order_book/ShardedOrderBookRouter.hpp come to their ends: wherever the
-- threads stand, there are steps of the workers and of the owner that lead there.
use back_tester.Prelude.{
  ℕ, zero, suc, ◌+◌, ◌≤◌, ◌<◌, ◌≡◌, refl, ap, ◌∙◌, ltb, Bool, true, false, Bool-cases, inl, inr,
  List, [], ◌∷◌, All, arith,
}
use back_tester.Event.{MarketDataEvent}
use back_tester.AnomalyLog.{BookAnomalyLog}
use back_tester.BookOps.{BookOps}
use back_tester.ShardedOrderBookRouter.Threads.{
  Item, Phase, System, Action, start, advance_from, step, run,
}
use back_tester.ShardedOrderBookRouter.Worked.{pending}
use back_tester.ShardedOrderBookRouter.Places.{IsMarked}
use back_tester.ShardedOrderBookRouter.Advance.{advance-IsGood}
use back_tester.ShardedOrderBookRouter.Owner.{IsGood, start-IsGood, work-IsGood, IsGood-IsFine}
use back_tester.ShardedOrderBookRouter.Calls.{accepted, run-IsGood}
use back_tester.ShardedOrderBookRouter.Draining.{
  IsInner, nothing_pending, work_on-end, Leads, leads_by, step-worked, drained,
}

-- Where the owner stands when `sync_all` or `close` has come to its end.
abbrev pub returned : Phase → Phase
returned Phase.idle = Phase.idle
returned Phase.printing = Phase.printing
returned (Phase.pushing s) = Phase.printing
returned (Phase.waiting s) = Phase.printing
returned (Phase.closing s) = Phase.idle
returned (Phase.joining s) = Phase.idle

IsMarked-unset :
    (n : ℕ) (items : List Item) (set : Bool) → IsMarked n items set → items ≡ [] → set ≡ true
IsMarked-unset n items set (inl (e, h)) k = h
IsMarked-unset n items set (inr ([], e, q, h)) k = absurd (cc)
IsMarked-unset n items set (inr (x ∷ xs, e, q, h)) k = absurd (cc)

module _ {B : Type 0} ⦃ops : BookOps B⦄ where
  module _ (N : ℕ) where
    advance-phase :
        (ph : Phase) (st : System B)
        → st.phase ≡ ph
        → (step N Action.advance st).phase ≡ (advance_from N ph st).phase
    unfolding step
    advance-phase ph st at = ap (λ p. (advance_from N p st).phase) at

    advanced-IsGood :
        (es : List MarketDataEvent) (st : System B)
        → IsGood N es st
        → IsGood N es (step N Action.advance st)
    unfolding step
    advanced-IsGood es st g = advance-IsGood N es st.phase st refl g

    -- One step of the owner is enough.
    arrives :
        (from ph : Phase) (st : System B)
        → st.phase ≡ from
        → (advance_from N from st).phase ≡ ph
        → Leads N ph st
    unfolding Leads
    arrives from ph st at h =
        leads_by N ph Action.advance st tt ([], tt, advance-phase from st at ∙ h)

    -- Each loop, with the turns left.
    waits :
        (es : List MarketDataEvent) (f k : ℕ) (st : System B)
        → N ≤ k + f
        → IsGood N es st
        → st.phase ≡ Phase.waiting k
        → Leads N Phase.printing st
    unfolding advance_from
    waits es zero k st enough g at =
        let past : ltb k N ≡ false = ground arith in
        arrives (Phase.waiting k) Phase.printing st at (rw past refl)
    waits es (suc f) k st enough g at = elim (Bool-cases (ltb k N)) [
      | inl more ↦
          let h : k < N = ground (arith, more) in
          drained N es (Phase.waiting k) Phase.printing k h (st.shards k).in_hand st refl g at
            (λ st' g' at' p.
              let fine = IsGood-IsFine N es (Phase.waiting k) st' at' g' k h in
              let set = IsMarked-unset st'.syncs (pending (st'.shards k)) _ fine.1.1 p in
              leads_by N Phase.printing Action.advance st' tt (
                waits es f (suc k) (step N Action.advance st') (omega (arith, enough))
                  (advanced-IsGood es st' g')
                  (advance-phase (Phase.waiting k) st' at' ∙ rw more (rw set refl))))
      | inr past ↦ arrives (Phase.waiting k) Phase.printing st at (rw past refl)
    ]

    waits_next :
        (es : List MarketDataEvent) (k : ℕ) (st : System B)
        → ltb k N ≡ false
        → IsGood N es st
        → st.phase ≡ Phase.pushing k
        → Leads N Phase.printing st
    unfolding advance_from
    waits_next es k st past g at = leads_by N Phase.printing Action.advance st tt (
        waits es N 0 (step N Action.advance st) (omega arith) (advanced-IsGood es st g)
          (advance-phase (Phase.pushing k) st at ∙ rw past refl))

    pushes :
        (es : List MarketDataEvent) (f k : ℕ) (st : System B)
        → N ≤ k + f
        → IsGood N es st
        → st.phase ≡ Phase.pushing k
        → Leads N Phase.printing st
    unfolding advance_from
    pushes es zero k st enough g at = waits_next es k st (ground arith) g at
    pushes es (suc f) k st enough g at = elim (Bool-cases (ltb k N)) [
      | inl more ↦ elim (Bool-cases (st.shards k).queue.closed) [
        | inl shut ↦ arrives (Phase.pushing k) Phase.printing st at (rw more (rw shut refl))
        | inr accepts ↦ leads_by N Phase.printing Action.advance st tt (
            pushes es f (suc k) (step N Action.advance st) (omega (arith, enough))
              (advanced-IsGood es st g)
              (advance-phase (Phase.pushing k) st at ∙ rw more (rw accepts refl)))
      ]
      | inr past ↦ waits_next es k st past g at
    ]

    joins :
        (es : List MarketDataEvent) (f k : ℕ) (st : System B)
        → N ≤ k + f
        → IsGood N es st
        → st.phase ≡ Phase.joining k
        → Leads N Phase.idle st
    unfolding advance_from step
    joins es zero k st enough g at =
        let past : ltb k N ≡ false = ground arith in
        arrives (Phase.joining k) Phase.idle st at (rw past refl)
    joins es (suc f) k st enough g at = elim (Bool-cases (ltb k N)) [
      | inl more ↦
          let h : k < N = ground (arith, more) in
          drained N es (Phase.joining k) Phase.idle k h (st.shards k).in_hand st refl g at
            (λ st' g' at' p.
              let fine = IsGood-IsFine N es (Phase.joining k) st' at' g' k h in
              let sh = st'.shards k in
              let (rests, empty) = nothing_pending sh.in_hand sh.queue.queue p in
              let st'' = step N (Action.work k) st' in
              let over =
                ap (λ t. t.ended) (step-worked N k st')
                ∙ work_on-end sh.in_hand sh st'.log rests empty fine.1.2 in
              leads_by N Phase.idle (Action.work k) st' tt (
                leads_by N Phase.idle Action.advance st'' tt (
                  joins es f (suc k) (step N Action.advance st'') (omega (arith, enough))
                    (advanced-IsGood es st'' (work-IsGood N es k st' g'))
                    (advance-phase (Phase.joining k) st'' at' ∙ rw more (rw over refl)))))
      | inr past ↦ arrives (Phase.joining k) Phase.idle st at (rw past refl)
    ]

    joins_next :
        (es : List MarketDataEvent) (k : ℕ) (st : System B)
        → ltb k N ≡ false
        → IsGood N es st
        → st.phase ≡ Phase.closing k
        → Leads N Phase.idle st
    unfolding advance_from
    joins_next es k st past g at = leads_by N Phase.idle Action.advance st tt (
        joins es N 0 (step N Action.advance st) (omega arith) (advanced-IsGood es st g)
          (advance-phase (Phase.closing k) st at ∙ rw past refl))

    closes :
        (es : List MarketDataEvent) (f k : ℕ) (st : System B)
        → N ≤ k + f
        → IsGood N es st
        → st.phase ≡ Phase.closing k
        → Leads N Phase.idle st
    unfolding advance_from
    closes es zero k st enough g at = joins_next es k st (ground arith) g at
    closes es (suc f) k st enough g at = elim (Bool-cases (ltb k N)) [
      | inl more ↦ leads_by N Phase.idle Action.advance st tt (
          closes es f (suc k) (step N Action.advance st) (omega (arith, enough))
            (advanced-IsGood es st g) (advance-phase (Phase.closing k) st at ∙ rw more refl))
      | inr past ↦ joins_next es k st past g at
    ]

    from_phase :
        (ph : Phase) (es : List MarketDataEvent) (st : System B)
        → st.phase ≡ ph
        → IsGood N es st
        → Leads N (returned ph) st
    unfolding Leads
    from_phase Phase.idle es st at g = ([], tt, at)
    from_phase Phase.printing es st at g = ([], tt, at)
    from_phase (Phase.pushing k) es st at g = pushes es N k st (omega arith) g at
    from_phase (Phase.waiting k) es st at g = waits es N k st (omega arith) g at
    from_phase (Phase.closing k) es st at g = closes es N k st (omega arith) g at
    from_phase (Phase.joining k) es st at g = joins es N k st (omega arith) g at

module _ (B : Type 0) ⦃ops : BookOps B⦄ (N : ℕ) where
  -- From any state that a new router reaches, some steps of the workers and of the owner inside its
  -- call lead to the end of its `sync_all`, where it prints, or of its `close`.
  pub returned-run :
      (acts : List Action) (l : BookAnomalyLog)
      → (rest : List Action) × All IsInner rest
        × ((run N rest (run N acts (start {B = B} l))).phase
            ≡ returned (run N acts (start {B = B} l)).phase)
  unfolding Leads
  returned-run acts l =
      let st = run N acts (start {B = B} l) in
      from_phase N st.phase (accepted N acts (start {B = B} l) []) st refl
        (run-IsGood N acts (start l) [] (start-IsGood N l))
