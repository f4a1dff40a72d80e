-- ===== src/SimpleOrderBookRouter/Routing.antt =====
-- Which book an event of src/order_book/SimpleOrderBookRouter.hpp reaches: the books against a
-- specification that replays, for one instrument, the events that belong to it.
use back_tester.Prelude.{
  ℕ, ◌≡◌, refl, ap, ap₂, fun_ext, ◌∙◌, ◌≢◌, Bool, false, not, ◌&&◌, ◌||◌, ◌==◌, ==_iff, Bool-cases,
  Option-cases, inl, inr, List, [], ◌∷◌, if◌then◌else◌, Dict, nat_key, find, find-assign, arith,
}
use back_tester.Event.{MarketDataEvent}
use back_tester.AnomalyLog.{BookAnomalyLog}
use back_tester.BookOps.{BookOps}
use back_tester.SimpleOrderBookRouter.{
  Router, empty_router, register, touch, instrument_of, book_of, deliver, apply,
}

-- The instrument of each order id, 0 for none.
abbrev pub Owners : Type 0
Owners = ℕ → ℕ

-- The last event that names both an order and an instrument decides; 0 names none.
abbrev pub owners_after : MarketDataEvent → Owners → Owners
owners_after e o id =
    if (e.instrument_id == 0) || (e.order_id == 0)
    then o id
    else (if e.order_id == id then e.instrument_id else o id)

-- Does the event belong to instrument `i`? One whose order has no instrument belongs to none.
abbrev pub belongs : ℕ → MarketDataEvent → Owners → Bool
belongs i e o =
    (owners_after e o e.order_id == i)
    && not ((owners_after e o e.order_id == 0) && not (e.order_id == 0))

pub instrument_of-register :
    (e : MarketDataEvent) (id : ℕ) (m : Dict ℕ ℕ)
    → instrument_of id (register e m) ≡ owners_after e (λ j. instrument_of j m) id
unfolding register
instrument_of-register e id m = elim (Bool-cases (e.instrument_id == 0)) [
  | inl no_instrument ↦ rw no_instrument refl
  | inr instrument ↦ elim (Bool-cases (e.order_id == 0)) [
    | inl no_order ↦ rw (instrument, no_order) refl
    | inr order ↦
        rw (instrument, order, find-assign e.order_id id e.instrument_id m)
          (elim (Bool-cases (e.order_id == id)) [
            | inl same ↦ rw same refl
            | inr apart ↦ rw apart refl
          ])
  ]
]

instrument_of-touch : (id q : ℕ) (m : Dict ℕ ℕ) → instrument_of q (touch id m) ≡ instrument_of q m
unfolding touch
instrument_of-touch id q m = elim (Option-cases (find id m)) [
  | inl absent ↦
      rw (absent, touch)
        (rw (find-assign id q 0 m) (elim (Bool-cases (id == q)) [
          | inl same ↦ rw (same, ← (==_iff id q).0 same, absent) refl
          | inr apart ↦ rw apart refl
        ]))
  | inr (i, known) ↦ rw (known, touch) refl
]

owners_after-zero : (e : MarketDataEvent) (o : Owners) → owners_after e o 0 ≡ o 0
owners_after-zero e o = ground arith

pub belongs-zero :
    (i : ℕ) (e : MarketDataEvent) (o : Owners)
    → e.order_id ≡ 0
    → o 0 ≡ 0
    → i ≢ 0
    → belongs i e o ≡ false
belongs-zero i e o anonymous z h = ground (arith, z, h, ap o anonymous)

module _ {B : Type 0} ⦃ops : BookOps B⦄ where
  unfoldable pub run : List MarketDataEvent → Router B → BookAnomalyLog → Router B × BookAnomalyLog
  run [] r l = (r, l)
  run (e ∷ es) r l = let (r', l') = apply e r l in run es r' l'

  -- The book of instrument `i`, on the events that belong to it.
  unfoldable pub replay : ℕ → List MarketDataEvent → Owners → B → BookAnomalyLog → B
  replay i [] o b l = b
  replay i (e ∷ es) o b l =
      replay i es (owners_after e o) (if belongs i e o then (ops.apply_book e b l).0 else b) l

  book_of-deliver :
      (i n : ℕ) (m : Dict ℕ ℕ) (e : MarketDataEvent) (r : Router B) (l l' : BookAnomalyLog)
      → book_of i (deliver n m e r l).0 ≡ (
          if (n == i) && not ((n == 0) && not (e.order_id == 0))
          then (ops.apply_book e (book_of i r) l').0
          else book_of i r)
  unfolding deliver
  book_of-deliver i n m e r l l' = elim (Bool-cases ((n == 0) && not (e.order_id == 0))) [
    | inl lost ↦
        rw lost (elim (Bool-cases (n == i)) [ inl own ↦ rw own refl | inr other ↦ rw other refl ])
    | inr found ↦
        rw (found, find-assign n i (ops.apply_book e (book_of n r) l).0 r.order_books)
          (elim (Bool-cases (n == i)) [
            | inl own ↦ rw (own, (==_iff n i).0 own) (ops.apply_book-log e (book_of i r) l l')
            | inr other ↦ rw other refl
          ])
  ]

  book_of-apply :
      (i : ℕ) (e : MarketDataEvent) (r : Router B) (l l' : BookAnomalyLog)
      → book_of i (apply e r l).0 ≡ (
          if belongs i e (λ j. instrument_of j r.order_to_instrument)
          then (ops.apply_book e (book_of i r) l').0
          else book_of i r)
  unfolding apply
  book_of-apply i e r l l' =
      rw (← instrument_of-register e e.order_id r.order_to_instrument)
        (book_of-deliver i (instrument_of e.order_id (register e r.order_to_instrument)) _ e r l l')

  map_of-deliver :
      (n : ℕ) (m : Dict ℕ ℕ) (e : MarketDataEvent) (r : Router B) (l : BookAnomalyLog)
      → (deliver n m e r l).0.order_to_instrument ≡ m
  unfolding deliver
  map_of-deliver n m e r l = elim (Bool-cases ((n == 0) && not (e.order_id == 0))) [
    | inl lost ↦ rw lost refl
    | inr found ↦ rw found refl
  ]

  instrument_of-apply :
      (id : ℕ) (e : MarketDataEvent) (r : Router B) (l : BookAnomalyLog)
      → instrument_of id (apply e r l).0.order_to_instrument
        ≡ owners_after e (λ j. instrument_of j r.order_to_instrument) id
  unfolding apply
  instrument_of-apply id e r l =
      let m = register e r.order_to_instrument in
      ap (instrument_of id) (map_of-deliver (instrument_of e.order_id m) (touch e.order_id m) e r l)
      ∙ instrument_of-touch e.order_id id m
      ∙ instrument_of-register e id r.order_to_instrument

  book_of-run_from :
      (i : ℕ) (es : List MarketDataEvent) (r : Router B) (l l' : BookAnomalyLog)
      → book_of i (run es r l).0
        ≡ replay i es (λ j. instrument_of j r.order_to_instrument) (book_of i r) l'
  unfolding run replay
  book_of-run_from i [] r l l' = refl
  book_of-run_from i (e ∷ es) r l l' =
      let (r', k) = apply e r l in
      book_of-run_from i es r' k l'
      ∙ ap₂ (λ o b. replay i es o b l') (fun_ext (λ id. instrument_of-apply id e r l))
          (book_of-apply i e r l l')

  -- After any stream of events from the empty router, the book of an instrument is what its events, and
  -- they alone, make of a fresh book: those whose order id was last named together with that
  -- instrument. An event whose order id is not 0 and has no instrument reaches no book, and an event
  -- with order id 0 belongs to instrument 0, whatever instrument it names.
  pub book_of-run :
      (i : ℕ) (es : List MarketDataEvent) (l l' : BookAnomalyLog)
      → book_of i (run es empty_router l).0 ≡ replay i es (λ j. 0) ops.fresh l'
  unfolding find
  book_of-run i es l l' = book_of-run_from i es empty_router l l'

  instrument_of-run_zero :
      (es : List MarketDataEvent) (r : Router B) (l : BookAnomalyLog)
      → instrument_of 0 (run es r l).0.order_to_instrument ≡ instrument_of 0 r.order_to_instrument
  unfolding run
  instrument_of-run_zero [] r l = refl
  instrument_of-run_zero (e ∷ es) r l =
      instrument_of-run_zero es _ _
      ∙ instrument_of-apply 0 e r l
      ∙ owners_after-zero e (λ j. instrument_of j r.order_to_instrument)

  -- After any stream of events from the empty router, an event with order id 0, a `Clear` of an
  -- instrument among them, leaves the book of every instrument other than 0 as it is.
  pub anonymous_event-changes_nothing :
      (i : ℕ) (e : MarketDataEvent) (es : List MarketDataEvent) (l l' : BookAnomalyLog)
      → e.order_id ≡ 0
      → i ≢ 0
      → book_of i (apply e (run es empty_router l).0 l').0 ≡ book_of i (run es empty_router l).0
  unfolding find
  anonymous_event-changes_nothing i e es l l' anonymous h =
      book_of-apply i e (run es empty_router l).0 l' l'
      ∙ rw
          (belongs-zero i e (λ j. instrument_of j (run es empty_router l).0.order_to_instrument)
            anonymous (instrument_of-run_zero es empty_router l) h)
          refl
