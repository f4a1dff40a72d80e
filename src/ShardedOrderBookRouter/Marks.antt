-- ===== src/ShardedOrderBookRouter/Marks.antt =====
-- What holds of a shard of src/order_book/ShardedOrderBookRouter.hpp at each place where the owner's
-- thread can stand, and that the steps of the shard's worker keep it.
use back_tester.Prelude.{
  ℕ, suc, ◌<◌, ◌≤◌, ◌≡◌, refl, sym, ap, subst, ◌∙◌, ◌==◌, ==_iff, Bool, true, false, not, ◌&&◌,
  Bool-cases, inl, inr, List, [], ◌∷◌, ◌++◌, append_assoc, nat_key, assign, arith,
}
use back_tester.Event.{MarketDataEvent}
use back_tester.AnomalyLog.{BookAnomalyLog}
use back_tester.BookOps.{BookOps}
use back_tester.SimpleOrderBookRouter
use back_tester.SimpleOrderBookRouter.{
  Router, empty_router, deliver, register, touch, instrument_of, book_of,
}
use back_tester.SimpleOrderBookRouter.Routing
use back_tester.ShardedOrderBookRouter.Threads.{Item, Shard}
use back_tester.ShardedOrderBookRouter.Worked.{pending, Worked, rests, applies, fulfils}

abbrev pub events_in : List Item → List MarketDataEvent
events_in [] = []
events_in (Item.event e ∷ items) = e ∷ events_in items
events_in (Item.promise n ∷ items) = events_in items

pub events_in-append : (xs ys : List Item) → events_in (xs ++ ys) ≡ events_in xs ++ events_in ys
events_in-append [] ys = refl
events_in-append (Item.event e ∷ xs) ys = ap (λ r. e ∷ r) (events_in-append xs ys)
events_in-append (Item.promise n ∷ xs) ys = events_in-append xs ys

-- No promise is among the items, and every promise is of the first `n` calls of `sync_all`.
abbrev pub IsQuiet : List Item → Type 0
IsQuiet [] = Unit
IsQuiet (Item.event e ∷ items) = IsQuiet items
IsQuiet (Item.promise n ∷ items) = ⊥

abbrev pub IsIssued : ℕ → List Item → Type 0
IsIssued n [] = Unit
IsIssued n (Item.event e ∷ items) = IsIssued n items
IsIssued n (Item.promise m ∷ items) = (m ≤ n) × IsIssued n items

pub IsQuiet-append :
    (xs : List Item) (e : MarketDataEvent) → IsQuiet xs → IsQuiet (xs ++ Item.event e ∷ [])
IsQuiet-append [] e q = tt
IsQuiet-append (Item.event d ∷ xs) e q = IsQuiet-append xs e q
IsQuiet-append (Item.promise n ∷ xs) e q = absurd q

pub IsIssued-append :
    (n : ℕ) (xs ys : List Item) → IsIssued n xs → IsIssued n ys → IsIssued n (xs ++ ys)
IsIssued-append n [] ys hx hy = hy
IsIssued-append n (Item.event e ∷ xs) ys hx hy = IsIssued-append n xs ys hx hy
IsIssued-append n (Item.promise m ∷ xs) ys hx hy = (hx.0, IsIssued-append n xs ys hx.1 hy)

pub IsIssued-suc : (n : ℕ) (xs : List Item) → IsIssued n xs → IsIssued (suc n) xs
IsIssued-suc n [] h = tt
IsIssued-suc n (Item.event e ∷ xs) h = IsIssued-suc n xs h
IsIssued-suc n (Item.promise m ∷ xs) h = (omega (arith, h.0), IsIssued-suc n xs h.1)

module _ {B : Type 0} ⦃ops : BookOps B⦄ where
  apply-log :
      (e : MarketDataEvent) (r : Router B) (l l' : BookAnomalyLog)
      → (SimpleOrderBookRouter.apply e r l).0 ≡ (SimpleOrderBookRouter.apply e r l').0
  unfolding SimpleOrderBookRouter.apply deliver
  apply-log e r l l' =
      let m = register e r.order_to_instrument in
      let i = instrument_of e.order_id m in
      elim (Bool-cases ((i == 0) && not (e.order_id == 0))) [
        | inl lost ↦ rw lost refl
        | inr found ↦ rw found (
            ap
              (λ (b : B). record {
                order_books = assign i b r.order_books;
                order_to_instrument = touch e.order_id m;
              })
              (ops.apply_book-log e (book_of i r) l l'))
      ]

  run-append :
      (es : List MarketDataEvent) (e : MarketDataEvent) (r : Router B) (l : BookAnomalyLog)
      → Routing.run (es ++ e ∷ []) r l
        ≡ SimpleOrderBookRouter.apply e (Routing.run es r l).0 (Routing.run es r l).1
  unfolding Routing.run
  run-append [] e r l = refl
  run-append (d ∷ es) e r l =
      let (r', l') = SimpleOrderBookRouter.apply d r l in run-append es e r' l'

  -- The router has dealt with `done`, and the events still pending are the rest of what was pushed.
  pub record IsSound (sent : List MarketDataEvent) (closed : Bool) (n : ℕ) (sh : Shard B)
      : Type 0 where
    pub done : List MarketDataEvent
    pub applied : (l : BookAnomalyLog) → sh.router ≡ (Routing.run done empty_router l).0
    pub rest : done ++ events_in (pending sh) ≡ sent
    pub accepts : closed ≡ false → sh.queue.closed ≡ false
    pub over : sh.ended ≡ true → (pending sh ≡ []) × (sh.queue.closed ≡ true)
    pub fresh : (m : ℕ) → n < m → sh.fulfilled m ≡ false
    pub issued : IsIssued n (pending sh)

  pub IsSound-Worked :
      {sent : List MarketDataEvent} {closed : Bool} {n : ℕ} {sh : Shard B} {l : BookAnomalyLog}
      {sh' : Shard B}
      → Worked sh l sh'
      → IsSound sent closed n sh
      → IsSound sent closed n sh'
  IsSound-Worked {n = n} (rests p r f o c) s = record {
    done = s.done;
    applied = λ l. r ∙ s.applied l;
    rest = ap (λ x. s.done ++ events_in x) p ∙ s.rest;
    accepts = λ k. c ∙ s.accepts k;
    over = λ k. elim (o k) [
      | inl k' ↦ (p ∙ (s.over k').0, c ∙ (s.over k').1)
      | inr (e, shut) ↦ (p ∙ e, c ∙ shut)
    ];
    fresh = λ m h. ap (λ g. g m) f ∙ s.fresh m h;
    issued = subst (IsIssued n) (sym p) s.issued;
  }
  IsSound-Worked {n = n} {sh = sh} {l = l} {sh' = sh'} (applies e p r f o c) s = record {
    done = s.done ++ e ∷ [];
    applied = λ l'.
        r
        ∙ ap (λ (x : Router B). (SimpleOrderBookRouter.apply e x l).0) (s.applied l')
        ∙ apply-log e _ l _
        ∙ ap (λ x. x.0) (sym (run-append s.done e empty_router l'));
    rest =
        append_assoc s.done (e ∷ []) (events_in (pending sh'))
        ∙ ap (λ x. s.done ++ events_in x) (sym p)
        ∙ s.rest;
    accepts = λ k. c ∙ s.accepts k;
    over = λ k. absurd (let z = sym p ∙ (s.over (sym o ∙ k)).0 in cc);
    fresh = λ m h. ap (λ g. g m) f ∙ s.fresh m h;
    issued = subst (IsIssued n) p s.issued;
  }
  IsSound-Worked {n = n} {sh = sh} (fulfils m p r f o c) s = record {
    done = s.done;
    applied = λ l'. r ∙ s.applied l';
    rest = ap (λ x. s.done ++ events_in x) (sym p) ∙ s.rest;
    accepts = λ k. c ∙ s.accepts k;
    over = λ k. absurd (let z = sym p ∙ (s.over (sym o ∙ k)).0 in cc);
    fresh = λ j h.
        let i = subst (IsIssued n) p s.issued in
        ap (λ g. g j) f ∙ ground (arith, s.fresh j h, ==_iff m j);
    issued = (subst (IsIssued n) p s.issued).1;
  }
