-- ===== src/LockFreeQueue/ConsumerSteps.antt =====
-- A step of the consumer of src/common/LockFreeQueue.hpp keeps the indices in order and takes no slot
-- that was not published.
use back_tester.Prelude.{
  ℕ, suc, ◌+◌, ◌-◌, ◌%◌, ◌≡◌, ◌≢◌, refl, ap, Bool, true, false, ◌==◌, List, [], ◌∷◌, ◌++◌, arith,
  if◌then◌else◌,
}
use back_tester.LockFreeQueue.{capacity, Ring, Producer, Consumer, consumer_step, begin_pop}
use back_tester.LockFreeQueue.Read.{read}
use back_tester.LockFreeQueue.Sound.{SeesItem, count, contents, IsSound, IsReady, IsTaking}

sees :
    (c : Consumer) (tail head : ℕ)
    → (b : Bool) → (tail == head) ≡ b
    → SeesItem c tail head
    → SeesItem (if b then c else Consumer.takes) tail head
sees c tail head true e h = h
sees c tail head false e h = ground arith

module _ {T : Type 0} where
  -- A step of the consumer: what it hands out was the front of the contents.
  pub record Consumed (p : Producer T) (c' : Consumer) (r r' : Ring T) (out : List T) : Type 0 where
    pub sound : IsSound r'
    pub ready : IsReady p r'
    pub taking : IsTaking c' r'
    pub left : contents r ≡ out ++ contents r'

  head_loaded :
      (p : Producer T) (c : Consumer) (r : Ring T)
      → IsSound r
      → IsReady p r
      → SeesItem c r.tail r.head
      → Consumed p
          (if r.tail == r.head then c else Consumer.takes)
          r
          (record r { head_cached = r.head })
          []
  head_loaded p c r s ready h = record {
    sound = omega arith;
    ready = ready;
    taking = sees c r.tail r.head (r.tail == r.head) refl h;
    left = refl;
  }

  take :
      (p : Producer T) (r : Ring T)
      → IsSound r
      → IsReady p r
      → r.tail ≢ r.head_cached
      → Consumed p Consumer.idle r
          (record r { tail = (r.tail + 1) % capacity })
          (r.buffer r.tail ∷ [])
  unfolding read
  take p r s ready there = record {
    sound = omega (arith, there);
    ready = ready;
    taking = tt;
    left =
        let more : count r ≡ suc ((r.head + capacity - (r.tail + 1) % capacity) % capacity) =
          omega (arith, there) in
        ap (read r.buffer r.tail) more;
  }

  asks-IsTaking :
      (r : Ring T) (b : Bool) → IsTaking (if b then Consumer.loads_last else Consumer.loads_again) r
  asks-IsTaking r true = tt
  asks-IsTaking r false = tt

  pub consumer_step-Consumed :
      (p : Producer T) (c : Consumer) (r : Ring T)
      → IsSound r
      → IsReady p r
      → IsTaking c r
      → Consumed p (consumer_step c r).0 r (consumer_step c r).1 (consumer_step c r).2
  unfolding consumer_step
  consumer_step-Consumed p Consumer.idle r s ready taking = record {
    sound = s;
    ready = ready;
    taking = tt;
    left = refl;
  }
  consumer_step-Consumed p Consumer.loads_first r s ready taking =
      head_loaded p Consumer.asks r s ready tt
  consumer_step-Consumed p Consumer.asks r s ready taking = record {
    sound = s;
    ready = ready;
    taking = asks-IsTaking r r.closed;
    left = refl;
  }
  consumer_step-Consumed p Consumer.loads_last r s ready taking =
      head_loaded p Consumer.idle r s ready tt
  consumer_step-Consumed p Consumer.loads_again r s ready taking =
      head_loaded p Consumer.asks r s ready tt
  consumer_step-Consumed p Consumer.takes r s ready taking = take p r s ready taking

  pub begin_pop-IsTaking : (r : Ring T) → IsTaking (begin_pop r) r
  unfolding begin_pop
  begin_pop-IsTaking r =
      sees Consumer.loads_first r.tail r.head_cached (r.tail == r.head_cached) refl tt
