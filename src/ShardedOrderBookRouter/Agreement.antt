-- ===== src/ShardedOrderBookRouter/Agreement.antt =====
-- The shards of src/order_book/ShardedOrderBookRouter.hpp against the one router of
-- src/order_book/SimpleOrderBookRouter.hpp.
use back_tester.Prelude.{
  ℕ, ◌%◌, ◌≡◌, ◌≢◌, refl, sym, ap, subst, fun_ext, ◌∙◌, Bool, true, false, not, ◌&&◌, ◌==◌, ==_iff,
  Bool-cases, inl, inr, List, [], ◌∷◌, if◌then◌else◌, Dict, nat_key, find, arith,
}
use back_tester.Event.{MarketDataEvent}
use back_tester.AnomalyLog.{BookAnomalyLog}
use back_tester.BookOps.{BookOps}
use back_tester.SimpleOrderBookRouter.{empty_router, names_order, register, instrument_of, book_of}
use back_tester.SimpleOrderBookRouter.Routing.{
  Owners, owners_after, belongs, belongs-zero, instrument_of-register, run, replay, book_of-run,
}
use back_tester.ShardedOrderBookRouter.{resolve, shard_of, sent_to, pushed_to}

-- A shard `s` knows the instrument of each order whose instrument is its own.
record Knows (N s : ℕ) (o mine : Owners) : Type 0 where
  own : (id : ℕ) → o id ≢ 0 → o id % N ≡ s → mine id ≡ o id
  zero_all : o 0 ≡ 0
  zero_mine : mine 0 ≡ 0

-- The instrument that a shard is chosen by is the owner of the event's order.
chosen : MarketDataEvent → Owners → ℕ
chosen e o =
    if not (e.instrument_id == 0)
    then e.instrument_id
    else (if not (e.order_id == 0) then o e.order_id else 0)

chosen-owner :
    (e : MarketDataEvent) (o : Owners)
    → (e.order_id == 0) ≡ false
    → chosen e (owners_after e o) ≡ owners_after e o e.order_id
unfolding chosen
chosen-owner e o h = ground (arith, h)

-- Does an event that leads to owners `o` go to shard `s`?
abbrev goes : ℕ → ℕ → MarketDataEvent → Owners → Bool
goes N s e o = not ((chosen e o == 0) && not (e.order_id == 0)) && (chosen e o % N == s)

unsent-belongs :
    (N i : ℕ) (e : MarketDataEvent) (o : Owners)
    → o 0 ≡ 0
    → i ≢ 0
    → goes N (i % N) e (owners_after e o) ≡ false
    → belongs i e o ≡ false
unsent-belongs N i e o z h g = elim (Bool-cases (e.order_id == 0)) [
  | inl zero_id ↦ belongs-zero i e o ((==_iff e.order_id 0).0 zero_id) z h
  | inr id ↦
      let t = owners_after e o e.order_id in
      let g' = rw (chosen-owner e o id) at g in
      elim (Bool-cases (t == i)) [
        | inl own ↦ absurd (
            let g'' = rw ((==_iff t i).0 own) at g' in
            ground (arith, g'', h, ==_iff i 0, ==_iff (i % N) (i % N)))
        | inr other ↦ rw other refl
      ]
]

sent-Knows :
    (N s : ℕ) (e : MarketDataEvent) (o mine : Owners)
    → Knows N s o mine
    → Knows N s (owners_after e o) (owners_after e mine)
sent-Knows N s e o mine k = record {
  own = λ id n m. ground (arith, k.own id, n, m);
  zero_all = ground (arith, k.zero_all);
  zero_mine = ground (arith, k.zero_mine);
}

sent-belongs :
    (N i : ℕ) (e : MarketDataEvent) (o mine : Owners)
    → Knows N (i % N) o mine
    → i ≢ 0
    → goes N (i % N) e (owners_after e o) ≡ true
    → belongs i e mine ≡ belongs i e o
sent-belongs N i e o mine k h g = elim (Bool-cases (e.order_id == 0)) [
  | inl zero_id ↦
      belongs-zero i e mine ((==_iff e.order_id 0).0 zero_id) k.zero_mine h
      ∙ sym (belongs-zero i e o ((==_iff e.order_id 0).0 zero_id) k.zero_all h)
  | inr id ↦
      let g' = rw (chosen-owner e o id) at g in
      ap (λ (t : ℕ). (t == i) && not ((t == 0) && not (e.order_id == 0)))
        ((sent-Knows N (i % N) e o mine k).own e.order_id (ground (arith, g', id))
          (ground (arith, g')))
]

unsent-Knows :
    (N s : ℕ) (e : MarketDataEvent) (o mine : Owners)
    → Knows N s o mine
    → goes N s e (owners_after e o) ≡ false
    → Knows N s (owners_after e o) mine
unsent-Knows N s e o mine k g = record {
  own = λ id n m. elim (Bool-cases (names_order e && (e.order_id == id))) [
    | inl named ↦
        let t = owners_after e o e.order_id in
        let p : e.order_id ≡ id = (==_iff e.order_id id).0 (ground (arith, named)) in
        let n' : t ≢ 0 = λ z. n (ap (owners_after e o) (sym p) ∙ z) in
        let m' : t % N ≡ s = ap (λ j. owners_after e o j % N) p ∙ m in
        let g' = rw (chosen-owner e o (ground (arith, named))) at g in
        absurd (ground (arith, g', n', m', ==_iff (t % N) s))
    | inr kept ↦ ground (arith, kept, k.own id, n, m)
  ];
  zero_all = ground (arith, k.zero_all);
  zero_mine = k.zero_mine;
}

abbrev owners_in : Dict ℕ ℕ → Owners
owners_in m id = instrument_of id m

resolve-chosen : (e : MarketDataEvent) (m : Dict ℕ ℕ) → resolve e m ≡ chosen e (owners_in m)
unfolding chosen
resolve-chosen e m = refl

sent_to-goes :
    (N s : ℕ) (e : MarketDataEvent) (m : Dict ℕ ℕ)
    → sent_to s (shard_of N e m) ≡ goes N s e (owners_in m)
unfolding shard_of
sent_to-goes N s e m =
    rw (resolve-chosen e m)
      (elim (Bool-cases ((chosen e (owners_in m) == 0) && not (e.order_id == 0))) [
        | inl lost ↦ rw lost refl
        | inr found ↦ rw found refl
      ])

register-owners :
    (e : MarketDataEvent) (m : Dict ℕ ℕ) → owners_in (register e m) ≡ owners_after e (owners_in m)
register-owners e m = fun_ext (λ id. instrument_of-register e id m)

module _ {B : Type 0} ⦃ops : BookOps B⦄ where
  replay-pushed_to :
      (N i : ℕ) (es : List MarketDataEvent) (m : Dict ℕ ℕ) (mine : Owners) (b : B)
      (l : BookAnomalyLog)
      → i ≢ 0
      → Knows N (i % N) (owners_in m) mine
      → replay i (pushed_to N (i % N) es m) mine b l ≡ replay i es (owners_in m) b l
  unfolding pushed_to replay
  replay-pushed_to N i [] m mine b l h k = refl
  replay-pushed_to N i (e ∷ es) m mine b l h k =
      let o = owners_in m in
      let m' = register e m in
      let own = register-owners e m in
      let dest = sent_to-goes N (i % N) e m' ∙ ap (goes N (i % N) e) own in
      let rest = pushed_to N (i % N) es m' in
      let next = λ (c : Bool). if c then (ops.apply_book e b l).0 else b in
      elim (Bool-cases (goes N (i % N) e (owners_after e o))) [
        | inl sent ↦
            ap (λ c. replay i (if c then e ∷ rest else rest) mine b l) (dest ∙ sent)
            ∙ ap (λ c. replay i rest (owners_after e mine) (next c) l)
                (sent-belongs N i e o mine k h sent)
            ∙ replay-pushed_to N i es m' (owners_after e mine) (next (belongs i e o)) l h (
                subst (λ w. Knows N (i % N) w (owners_after e mine)) (sym own)
                  (sent-Knows N (i % N) e o mine k))
            ∙ ap (λ w. replay i es w (next (belongs i e o)) l) own
        | inr unsent ↦
            ap (λ c. replay i (if c then e ∷ rest else rest) mine b l) (dest ∙ unsent)
            ∙ replay-pushed_to N i es m' mine b l h (
                subst (λ w. Knows N (i % N) w mine) (sym own)
                  (unsent-Knows N (i % N) e o mine k unsent))
            ∙ ap (λ w. replay i es w b l) own
            ∙ sym (
                ap (λ c. replay i es (owners_after e o) (next c) l)
                  (unsent-belongs N i e o k.zero_all h unsent))
      ]

  -- For any number of shards and any stream of events, the book of an instrument other than 0 is the
  -- same in its shard, run on what is pushed to that shard, as in one router that has all events.
  pub shard-agrees :
      (N i : ℕ) (es : List MarketDataEvent) (l : BookAnomalyLog)
      → i ≢ 0
      → book_of {B = B} i (run (pushed_to N (i % N) es []) empty_router l).0
        ≡ book_of {B = B} i (run es empty_router l).0
  unfolding find
  shard-agrees N i es l h =
      book_of-run i (pushed_to N (i % N) es []) l l
      ∙ replay-pushed_to N i es [] (λ j. 0) ops.fresh l h
          (record { own = λ id n m. refl; zero_all = refl; zero_mine = refl })
      ∙ sym (book_of-run i es l l)
