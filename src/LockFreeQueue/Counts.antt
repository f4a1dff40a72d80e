-- ===== src/LockFreeQueue/Counts.antt =====
-- The indices of src/common/LockFreeQueue.hpp count the items: what `size_impl` and `empty_impl` give when
-- the threads go on between their two loads.
use back_tester.Prelude.{
  ℕ, ◌+◌, ◌%◌, ◌≤◌, ◌<◌, ◌≡◌, refl, sym, ap, ◌∙◌, true, ◌==◌, ==_iff, if_cases, ◌↔◌, List, [], ◌∷◌,
  length, length-append, arith,
}
use back_tester.LockFreeQueue.{
  capacity, Ring, Producer, Consumer, System, Action, producer_step, consumer_step, published, act,
  run, new_system, size_impl, empty_impl,
}
use back_tester.LockFreeQueue.Read.{length-read}
use back_tester.LockFreeQueue.Sound.{count, contents}
use back_tester.LockFreeQueue.Fifo.{IsQueue, run-IsQueue, new_system-IsQueue}

-- `head_` has moved by what was published, `tail_` by what was handed out.
abbrev IsMoved : ℕ → ℕ → ℕ → Type 0
IsMoved from n to = to ≡ (from + n) % capacity

module _ {T : Type 0} where
  producer_step-head :
      (p : Producer T) (r : Ring T)
      → r.head < capacity
      → (IsMoved r.head (length (published p)) (producer_step p r).1.head)
        × ((producer_step p r).1.tail ≡ r.tail)
  unfolding producer_step
  producer_step-head Producer.idle r h = (omega (arith, h), refl)
  producer_step-head (Producer.push_tests x) r h =
      if_cases (λ (s : Producer T × Ring T). IsMoved r.head 0 s.1.head × (s.1.tail ≡ r.tail))
        ((r.head + 1) % capacity == r.tail_cached) (λ _. (omega (arith, h), refl))
        (λ _. (omega (arith, h), refl))
  producer_step-head (Producer.push_asks x) r h = (omega (arith, h), refl)
  producer_step-head (Producer.push_loads x) r h = (omega (arith, h), refl)
  producer_step-head (Producer.batch_tests xs) r h =
      if_cases (λ (s : Producer T × Ring T). IsMoved r.head 0 s.1.head × (s.1.tail ≡ r.tail)) _
        (λ _. (omega (arith, h), refl)) (λ _. (omega (arith, h), refl))
  producer_step-head (Producer.batch_asks xs) r h = (omega (arith, h), refl)
  producer_step-head (Producer.batch_loads xs) r h = (omega (arith, h), refl)
  producer_step-head (Producer.publishes xs) r h = (refl, refl)

  consumer_step-tail :
      (c : Consumer) (r : Ring T)
      → r.tail < capacity
      → (IsMoved r.tail (length (consumer_step c r).2) (consumer_step c r).1.tail)
        × ((consumer_step c r).1.head ≡ r.head)
  unfolding consumer_step
  consumer_step-tail Consumer.idle r h = (omega (arith, h), refl)
  consumer_step-tail Consumer.loads_first r h = (omega (arith, h), refl)
  consumer_step-tail Consumer.asks r h = (omega (arith, h), refl)
  consumer_step-tail Consumer.loads_last r h = (omega (arith, h), refl)
  consumer_step-tail Consumer.loads_again r h = (omega (arith, h), refl)
  consumer_step-tail Consumer.takes r h = (refl, refl)

  record IsCounted (s : System T) : Type 0 where
    heads : s.ring.head ≡ length s.sent % capacity
    tails : s.ring.tail ≡ length s.received % capacity

  -- A step keeps the counts, and takes nothing back.
  act-IsCounted :
      (a : Action T) (s : System T)
      → IsCounted s
      → IsCounted (act a s)
        × (length s.sent ≤ length (act a s).sent)
        × (length s.received ≤ length (act a s).received)
  unfolding act
  act-IsCounted (Action.push x) s c =
      (record { heads = c.heads; tails = c.tails }, omega arith, omega arith)
  act-IsCounted (Action.push_batch xs) s c =
      (record { heads = c.heads; tails = c.tails }, omega arith, omega arith)
  act-IsCounted Action.produce s c =
      let m = producer_step-head s.producer s.ring (omega (arith, c.heads)) in
      let grown = length-append s.sent (published s.producer) in
      (
        record { heads = omega (arith, m.0, grown, c.heads); tails = m.1 ∙ c.tails },
        omega (arith, grown),
        omega arith,
      )
  act-IsCounted Action.pop s c =
      (record { heads = c.heads; tails = c.tails }, omega arith, omega arith)
  act-IsCounted Action.consume s c =
      let m = consumer_step-tail s.consumer s.ring (omega (arith, c.tails)) in
      let grown = length-append s.received (consumer_step s.consumer s.ring).2 in
      (
        record { heads = m.1 ∙ c.heads; tails = omega (arith, m.0, grown, c.tails) },
        omega arith,
        omega (arith, grown),
      )
  act-IsCounted Action.close s c =
      (record { heads = c.heads; tails = c.tails }, omega arith, omega arith)

  run-IsCounted :
      (actions : List (Action T)) (s : System T)
      → IsCounted s
      → IsCounted (run actions s)
        × (length s.sent ≤ length (run actions s).sent)
        × (length s.received ≤ length (run actions s).received)
  unfolding run
  run-IsCounted [] s c = (c, omega arith, omega arith)
  run-IsCounted (a ∷ actions) s c =
      let one = act-IsCounted a s c in
      let rest = run-IsCounted actions (act a s) one.0 in
      (rest.0, omega (arith, one.1, rest.1), omega (arith, one.2, rest.2))

  -- The items in the ring are those published and not handed out.
  queued : (s : System T) → IsQueue s → length s.received + length (contents s.ring) ≡ length s.sent
  queued s q = sym (length-append s.received (contents s.ring)) ∙ ap length q.fifo

  few : (s : System T) → IsQueue s → length (contents s.ring) < capacity
  few s q = let e = length-read s.ring.buffer s.ring.tail (count s.ring) in omega (arith, e)

  -- What the observers say of the items published up to one of the loads and the items handed out up to
  -- the other. `size_impl` loads `head_` first; the order of the loads of `empty_impl` is open.
  pub record Observed (s s' : System T) : Type 0 where
    pub bounded : size_impl s.ring s'.ring < capacity
    pub modulo :
        (size_impl s.ring s'.ring + length s'.received) % capacity ≡ length s.sent % capacity
    pub exact :
        length s'.received ≤ length s.sent
        → size_impl s.ring s'.ring + length s'.received ≡ length s.sent
    pub at_once : size_impl s.ring s.ring ≡ length (contents s.ring)
    pub tail_first :
        (empty_impl s.ring s'.ring ≡ true)
        ↔ (length s.received % capacity ≡ length s'.sent % capacity)
    pub head_first :
        (empty_impl s'.ring s.ring ≡ true)
        ↔ (length s'.received % capacity ≡ length s.sent % capacity)
    pub empty_at_once : (empty_impl s.ring s.ring ≡ true) ↔ (length (contents s.ring) ≡ 0)

  observed :
      (s s' : System T)
      → IsQueue s
      → IsCounted s
      → IsQueue s'
      → IsCounted s'
      → length s.sent ≤ length s'.sent
      → Observed s s'
  unfolding size_impl empty_impl
  observed s s' q c q' c' later =
      let here = queued s q in
      let there = queued s' q' in
      let small = few s q in
      let small' = few s' q' in
      record {
        bounded = omega arith;
        modulo = omega (arith, c.heads, c'.tails);
        exact = λ h. omega (arith, c.heads, c'.tails, there, small', h, later);
        at_once = omega (arith, c.heads, c.tails, here, small);
        tail_first = (
          λ h. sym c.tails ∙ (==_iff s.ring.tail s'.ring.head).0 h ∙ c'.heads,
          λ h. (==_iff s.ring.tail s'.ring.head).1 (c.tails ∙ h ∙ sym c'.heads),
        );
        head_first = (
          λ h. sym c'.tails ∙ (==_iff s'.ring.tail s.ring.head).0 h ∙ c.heads,
          λ h. (==_iff s'.ring.tail s.ring.head).1 (c'.tails ∙ h ∙ sym c.heads),
        );
        empty_at_once = (
          λ h.
              let e = (==_iff s.ring.tail s.ring.head).0 h in
              omega (arith, e, c.heads, c.tails, here, small),
          λ h. (==_iff s.ring.tail s.ring.head).1 (omega (arith, h, c.heads, c.tails, here)),
        );
      }

  -- After any steps on a new ring, and any more between the two loads of an observer: `size_impl` gives
  -- less than the capacity, and modulo the capacity the number of the items published until its first
  -- load less those handed out until its second. The number is exact if no more than those were handed
  -- out until then. `empty_impl` gives true exactly if, modulo the capacity, as many items were handed out
  -- until its load of `tail_` as were published until its load of `head_`. Without steps between the loads
  -- both tell of the items in the ring.
  pub size_impl-run :
      (before between : List (Action T)) (b : ℕ → T)
      → Observed (run before (new_system b)) (run between (run before (new_system b)))
  size_impl-run before between b =
      let s = run before (new_system b) in
      let q = run-IsQueue before (new_system b) (new_system-IsQueue b) in
      let c = run-IsCounted before (new_system b) (record { heads = refl; tails = refl }) in
      let c' = run-IsCounted between s c.0 in
      observed s (run between s) q c.0 (run-IsQueue between s q) c'.0 c'.1
