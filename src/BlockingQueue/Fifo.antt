-- ===== src/BlockingQueue/Fifo.antt =====
-- What goes through a queue of src/common/BlockingQueue.hpp under any order of calls.
use back_tester.Prelude.{
  ◌≡◌, refl, sym, ap, ◌∙◌, true, Bool-cases, inl, inr, List, [], ◌∷◌, ◌++◌, append-nil,
  append_assoc,
}
use back_tester.BlockingQueue.{
  Queue, Call, Outcome, new_queue, push_impl, push_batch_impl, pop_from, pop_impl, step,
}

module _ {T : Type 0} where
  -- The items that a call has put in.
  abbrev pub taken_in : Call T → Outcome T → List T
  taken_in (Call.push x) Outcome.done = x ∷ []
  taken_in (Call.push_batch xs) Outcome.done = xs
  taken_in c o = []

  -- The item that a call has handed out.
  abbrev pub handed_out : Outcome T → List T
  handed_out (Outcome.popped x) = x ∷ []
  handed_out o = []

  unfoldable pub state_after : List (Call T) → Queue T → Queue T
  state_after [] q = q
  state_after (c ∷ cs) q = state_after cs (step c q).1

  -- All items that the calls have put in, and all that they have handed out, in order.
  unfoldable pub inputs : List (Call T) → Queue T → List T
  inputs [] q = []
  inputs (c ∷ cs) q = taken_in c (step c q).0 ++ inputs cs (step c q).1

  unfoldable pub outputs : List (Call T) → Queue T → List T
  outputs [] q = []
  outputs (c ∷ cs) q = handed_out (step c q).0 ++ outputs cs (step c q).1

  pop_from-fifo :
      (xs : List T) (q : Queue T)
      → q.queue ≡ xs
      → handed_out (pop_from xs q).0 ++ (pop_from xs q).1.queue ≡ xs
  pop_from-fifo [] q e = elim (Bool-cases q.closed) [
    | inl shut ↦ rw shut e
    | inr accepts ↦ rw accepts e
  ]
  pop_from-fifo (x ∷ xs) q e = refl

  pop_from-closed : (xs : List T) (q : Queue T) → q.closed ≡ true → (pop_from xs q).1.closed ≡ true
  pop_from-closed [] q shut = shut
  pop_from-closed (x ∷ xs) q shut = shut

  pop_from-ended :
      (xs : List T) (q : Queue T)
      → (pop_from xs q).0 ≡ Outcome.ended
      → (xs ≡ []) × (q.closed ≡ true)
  pop_from-ended [] q h = elim (Bool-cases q.closed) [
    | inl shut ↦ (refl, shut)
    | inr accepts ↦ absurd (let h' = rw accepts at h in cc)
  ]
  pop_from-ended (x ∷ xs) q h = absurd (cc)

  step-fifo :
      (c : Call T) (q : Queue T)
      → handed_out (step c q).0 ++ (step c q).1.queue ≡ q.queue ++ taken_in c (step c q).0
  unfolding step push_impl push_batch_impl pop_impl
  step-fifo (Call.push x) q = elim (Bool-cases q.closed) [
    | inl shut ↦ rw shut (sym (append-nil q.queue))
    | inr accepts ↦ rw accepts refl
  ]
  step-fifo (Call.push_batch xs) q = elim (Bool-cases q.closed) [
    | inl shut ↦ rw shut (sym (append-nil q.queue))
    | inr accepts ↦ rw accepts refl
  ]
  step-fifo Call.pop q = pop_from-fifo q.queue q refl ∙ sym (append-nil q.queue)
  step-fifo Call.close q = sym (append-nil q.queue)

  fifo_from :
      (cs : List (Call T)) (q : Queue T)
      → outputs cs q ++ (state_after cs q).queue ≡ q.queue ++ inputs cs q
  unfolding state_after inputs outputs
  fifo_from [] q = sym (append-nil q.queue)
  fifo_from (c ∷ cs) q =
      append_assoc (handed_out (step c q).0) (outputs cs (step c q).1)
        (state_after cs (step c q).1).queue
      ∙ ap (λ r. handed_out (step c q).0 ++ r) (fifo_from cs (step c q).1)
      ∙ sym (append_assoc (handed_out (step c q).0) (step c q).1.queue (inputs cs (step c q).1))
      ∙ ap (λ r. r ++ inputs cs (step c q).1) (step-fifo c q)
      ∙ append_assoc q.queue (taken_in c (step c q).0) (inputs cs (step c q).1)

  -- Under any order of calls on a new queue, the items handed out are those put in, in the order in
  -- which they came, up to those that are still in the queue: none is lost, doubled or overtaken.
  pub outputs-inputs :
      (cs : List (Call T))
      → outputs cs new_queue ++ (state_after cs new_queue).queue ≡ inputs cs new_queue
  outputs-inputs cs = fifo_from cs new_queue

  step-closed :
      (c : Call T) (q : Queue T)
      → q.closed ≡ true
      → (taken_in c (step c q).0 ≡ []) × ((step c q).1.closed ≡ true)
  unfolding step push_impl push_batch_impl pop_impl
  step-closed (Call.push x) q shut = rw shut (refl, refl)
  step-closed (Call.push_batch xs) q shut = rw shut (refl, refl)
  step-closed Call.pop q shut = (refl, pop_from-closed q.queue q shut)
  step-closed Call.close q shut = (refl, refl)

  -- Once a queue is closed it stays closed, and no later call puts anything in.
  pub closed-inputs :
      (cs : List (Call T)) (q : Queue T)
      → q.closed ≡ true
      → (inputs cs q ≡ []) × ((state_after cs q).closed ≡ true)
  unfolding state_after inputs
  closed-inputs [] q shut = (refl, shut)
  closed-inputs (c ∷ cs) q shut =
      let (nothing, shut') = step-closed c q shut in
      let (rest, end) = closed-inputs cs (step c q).1 shut' in (rw (nothing, rest) refl, end)

  -- If a `pop` on what a new queue has become returns `false`, then the queue is closed, everything that
  -- was put in has been handed out, and no later call puts anything in.
  pub pop_impl-ended :
      (cs later : List (Call T))
      → (pop_impl (state_after cs new_queue)).0 ≡ Outcome.ended
      → (outputs cs new_queue ≡ inputs cs new_queue)
        × ((state_after cs new_queue).closed ≡ true)
        × (inputs later (state_after cs new_queue) ≡ [])
  unfolding pop_impl
  pop_impl-ended cs later h =
      let q = state_after cs new_queue in
      let (drained, shut) = pop_from-ended q.queue q h in
      (
        sym (append-nil (outputs cs new_queue))
            ∙ ap (λ r. outputs cs new_queue ++ r) (sym drained)
            ∙ outputs-inputs cs,
        shut,
        (closed-inputs later q shut).0,
      )
