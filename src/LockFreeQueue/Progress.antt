-- ===== src/LockFreeQueue/Progress.antt =====
-- The consumer of src/common/LockFreeQueue.hpp does not wait for the producer when there is an item.
use back_tester.Prelude.{
  ℕ, zero, suc, ◌≡◌, ◌≢◌, refl, sym, ap, ◌∙◌, Bool, true, false, ◌==◌, List, [], ◌∷◌, ◌++◌,
  append-nil, append_assoc, length, arith, if◌then◌else◌,
}
use back_tester.LockFreeQueue.{Ring, Consumer, System, Action, consumer_step, act, run, new_system}
use back_tester.LockFreeQueue.Read.{read, length-read}
use back_tester.LockFreeQueue.Sound.{count, contents, IsSound}
use back_tester.LockFreeQueue.Fifo.{run-IsQueue, new_system-IsQueue}

module _ {T : Type 0} where
  -- Steps of the consumer alone, and what they hand out.
  pub consumes : ℕ → List (Action T)
  consumes zero = []
  consumes (suc n) = Action.consume ∷ consumes n

  steps : ℕ → Consumer → Ring T → List T
  steps zero c r = []
  steps (suc n) c r = (consumer_step c r).2 ++ steps n (consumer_step c r).0 (consumer_step c r).1

  not_empty :
      (r : Ring T) (x : T) (xs : List T)
      → IsSound r
      → contents r ≡ x ∷ xs
      → (r.tail == r.head) ≡ false
  not_empty r x xs s h =
      let some_left : count r ≡ suc (length xs) =
        sym (length-read r.buffer r.tail (count r)) ∙ ap length h in
      let apart : r.tail ≢ r.head = omega (arith, some_left) in ground (arith, apart)

  front : (r : Ring T) (x : T) (xs : List T) → contents r ≡ x ∷ xs → r.buffer r.tail ≡ x
  unfolding read
  front r x xs h = first (count r) h
    where
      first : (n : ℕ) → read r.buffer r.tail n ≡ x ∷ xs → r.buffer r.tail ≡ x
      first zero e = absurd (cc)
      first (suc n) e = cc

  after_asking :
      (b : Bool) (r : Ring T) (x : T) (xs : List T)
      → IsSound r
      → contents r ≡ x ∷ xs
      → steps 2 (if b then Consumer.loads_last else Consumer.loads_again) r ≡ x ∷ []
  unfolding steps consumer_step
  after_asking true r x xs s h = rw (not_empty r x xs s h) (ap (λ y. y ∷ []) (front r x xs h))
  after_asking false r x xs s h = rw (not_empty r x xs s h) (ap (λ y. y ∷ []) (front r x xs h))

  three_steps :
      (c : Consumer) (r : Ring T) (x : T) (xs : List T)
      → IsSound r
      → contents r ≡ x ∷ xs
      → c ≢ Consumer.idle
      → steps 3 c r ≡ x ∷ []
  unfolding steps consumer_step
  three_steps Consumer.idle r x xs s h busy = absurd (busy refl)
  three_steps Consumer.loads_first r x xs s h busy =
      rw (not_empty r x xs s h) (ap (λ y. y ∷ []) (front r x xs h))
  three_steps Consumer.asks r x xs s h busy = after_asking r.closed r x xs s h
  three_steps Consumer.loads_last r x xs s h busy =
      rw (not_empty r x xs s h) (ap (λ y. y ∷ []) (front r x xs h))
  three_steps Consumer.loads_again r x xs s h busy =
      rw (not_empty r x xs s h) (ap (λ y. y ∷ []) (front r x xs h))
  three_steps Consumer.takes r x xs s h busy = ap (λ y. y ∷ []) (front r x xs h)

  received-steps :
      (n : ℕ) (s : System T)
      → (run (consumes n) s).received ≡ s.received ++ steps n s.consumer s.ring
  unfolding run act steps consumes
  received-steps zero s = sym (append-nil s.received)
  received-steps (suc n) s =
      received-steps n (act Action.consume s)
      ∙ append_assoc s.received (consumer_step s.consumer s.ring).2
          (steps n (consumer_step s.consumer s.ring).0 (consumer_step s.consumer s.ring).1)

  -- After any steps on a new queue, while a call of pop is under way and the queue holds an item, three
  -- steps of the consumer alone hand out the first item and no other.
  pub consume-run :
      (actions : List (Action T)) (b : ℕ → T) (x : T) (xs : List T)
      → contents (run actions (new_system b)).ring ≡ x ∷ xs
      → (run actions (new_system b)).consumer ≢ Consumer.idle
      → (run (consumes 3) (run actions (new_system b))).received
        ≡ (run actions (new_system b)).received ++ x ∷ []
  consume-run actions b x xs h busy =
      let s = run actions (new_system b) in
      received-steps 3 s
      ∙ ap (λ ys. s.received ++ ys)
          (three_steps s.consumer s.ring x xs
            (run-IsQueue actions (new_system b) (new_system-IsQueue b)).sound h busy)
