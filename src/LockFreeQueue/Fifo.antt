-- ===== src/LockFreeQueue/Fifo.antt =====
-- The ring of src/common/LockFreeQueue.hpp is a queue: under any order of the steps of its threads, what
-- is handed out is what was published, in its order.
use back_tester.Prelude.{
  ℕ, ◌≡◌, refl, sym, ap, ◌∙◌, Bool, true, false, ◌==◌, leb, List, [], ◌∷◌, ◌++◌, append_assoc,
  length, arith, if◌then◌else◌,
}
use back_tester.LockFreeQueue.{
  capacity, Ring, Producer, Consumer, System, Action, begin, begin_consumer, begin_push,
  begin_push_batch, begin_pop, producer_step, consumer_step, published, act, run, new_system,
}
use back_tester.LockFreeQueue.Read.{read}
use back_tester.LockFreeQueue.Sound.{contents, IsSound, IsReady, IsTaking}
use back_tester.LockFreeQueue.ProducerSteps.{producer_step-Produced}
use back_tester.LockFreeQueue.ConsumerSteps.{consumer_step-Consumed, begin_pop-IsTaking}

module _ {T : Type 0} where
  -- Sound indices, and every item published was handed out or is still in the queue, in order.
  pub record IsQueue (s : System T) : Type 0 where
    pub sound : IsSound s.ring
    pub ready : IsReady s.producer s.ring
    pub taking : IsTaking s.consumer s.ring
    pub fifo : s.received ++ contents s.ring ≡ s.sent

  begin-IsReady :
      (p next : Producer T) (r : Ring T) → IsReady p r → IsReady next r → IsReady (begin p next) r
  begin-IsReady Producer.idle next r h k = k
  begin-IsReady (Producer.push_tests x) next r h k = h
  begin-IsReady (Producer.push_asks x) next r h k = h
  begin-IsReady (Producer.push_loads x) next r h k = h
  begin-IsReady (Producer.batch_tests x) next r h k = h
  begin-IsReady (Producer.batch_asks x) next r h k = h
  begin-IsReady (Producer.batch_loads x) next r h k = h
  begin-IsReady (Producer.publishes x) next r h k = h

  begin-IsTaking :
      (c next : Consumer) (r : Ring T)
      → IsTaking c r
      → IsTaking next r
      → IsTaking (begin_consumer c next) r
  begin-IsTaking Consumer.idle next r h k = k
  begin-IsTaking Consumer.loads_first next r h k = h
  begin-IsTaking Consumer.asks next r h k = h
  begin-IsTaking Consumer.loads_last next r h k = h
  begin-IsTaking Consumer.loads_again next r h k = h
  begin-IsTaking Consumer.takes next r h k = h

  if-IsReady :
      (b : Bool) (p q : Producer T) (r : Ring T)
      → IsReady p r
      → IsReady q r
      → IsReady (if b then p else q) r
  if-IsReady true p q r h k = h
  if-IsReady false p q r h k = k

  begin_push-IsReady : (x : T) (r : Ring T) → IsReady (begin_push x r) r
  unfolding begin_push
  begin_push-IsReady x r = if-IsReady r.closed Producer.idle (Producer.push_tests x) r tt tt

  begin_push_batch-IsReady : (xs : List T) (r : Ring T) → IsReady (begin_push_batch xs r) r
  unfolding begin_push_batch
  begin_push_batch-IsReady xs r = if-IsReady r.closed Producer.idle _ r tt (
      if-IsReady (length xs == 0) Producer.idle _ r tt
        (if-IsReady (leb capacity (length xs)) Producer.idle (Producer.batch_tests xs) r tt tt))

  produced_fifo :
      (received sent : List T) (p : Producer T) (r r' : Ring T)
      → received ++ contents r ≡ sent
      → contents r' ≡ contents r ++ published p
      → received ++ contents r' ≡ sent ++ published p
  produced_fifo received sent p r r' fifo joined =
      ap (λ ys. received ++ ys) joined
      ∙ sym (append_assoc received (contents r) (published p))
      ∙ ap (λ ys. ys ++ published p) fifo

  consumed_fifo :
      (received sent out : List T) (r r' : Ring T)
      → received ++ contents r ≡ sent
      → contents r ≡ out ++ contents r'
      → (received ++ out) ++ contents r' ≡ sent
  consumed_fifo received sent out r r' fifo left =
      append_assoc received out (contents r') ∙ ap (λ ys. received ++ ys) (sym left) ∙ fifo

  pub act-IsQueue : (a : Action T) (s : System T) → IsQueue s → IsQueue (act a s)
  unfolding act
  act-IsQueue (Action.push x) s q = record {
    sound = q.sound;
    ready =
        begin-IsReady s.producer (begin_push x s.ring) s.ring q.ready (begin_push-IsReady x s.ring);
    taking = q.taking;
    fifo = q.fifo;
  }
  act-IsQueue (Action.push_batch xs) s q = record {
    sound = q.sound;
    ready =
        begin-IsReady s.producer (begin_push_batch xs s.ring) s.ring q.ready
          (begin_push_batch-IsReady xs s.ring);
    taking = q.taking;
    fifo = q.fifo;
  }
  act-IsQueue Action.produce s q =
      let done = producer_step-Produced s.consumer s.producer s.ring q.sound q.ready q.taking in
      record {
        sound = done.sound;
        ready = done.ready;
        taking = done.taking;
        fifo =
            produced_fifo s.received s.sent s.producer s.ring (producer_step s.producer s.ring).1
              q.fifo done.joined;
      }
  act-IsQueue Action.pop s q = record {
    sound = q.sound;
    ready = q.ready;
    taking =
        begin-IsTaking s.consumer (begin_pop s.ring) s.ring q.taking (begin_pop-IsTaking s.ring);
    fifo = q.fifo;
  }
  act-IsQueue Action.consume s q =
      let done = consumer_step-Consumed s.producer s.consumer s.ring q.sound q.ready q.taking in
      record {
        sound = done.sound;
        ready = done.ready;
        taking = done.taking;
        fifo =
            consumed_fifo s.received s.sent (consumer_step s.consumer s.ring).2 s.ring
              (consumer_step s.consumer s.ring).1 q.fifo done.left;
      }
  act-IsQueue Action.close s q = record {
    sound = omega arith;
    ready = q.ready;
    taking = q.taking;
    fifo = q.fifo;
  }

  pub run-IsQueue : (actions : List (Action T)) (s : System T) → IsQueue s → IsQueue (run actions s)
  unfolding run
  run-IsQueue [] s q = q
  run-IsQueue (a ∷ actions) s q = run-IsQueue actions (act a s) (act-IsQueue a s q)

  pub new_system-IsQueue : (b : ℕ → T) → IsQueue (new_system b)
  unfolding read
  new_system-IsQueue b = record { sound = omega arith; ready = tt; taking = tt; fifo = refl }

  -- Under any order of the steps of producer, consumer and `close` on a new queue, the items handed out
  -- are those published, in the order in which they were, up to those still in the ring: no slot is
  -- overwritten before it was read, none is read twice or before it was published.
  pub received-run :
      (actions : List (Action T)) (b : ℕ → T)
      → (run actions (new_system b)).received ++ contents (run actions (new_system b)).ring
        ≡ (run actions (new_system b)).sent
  received-run actions b = (run-IsQueue actions (new_system b) (new_system-IsQueue b)).fifo
