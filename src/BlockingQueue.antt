-- ===== src/BlockingQueue.antt =====
-- src/common/BlockingQueue.hpp, which `QueueBase` passes its calls on to. The mutex makes the body of
-- each call one step; the calls of all threads come in some order. A `pop` that has to wait changes
-- nothing, and is made again when the queue has changed.
pub mod Fifo
use back_tester.Prelude.{ℕ, Bool, true, false, List, [], ◌∷◌, ◌++◌, length, if◌then◌else◌}

pub record Queue (T : Type 0) : Type 0 where
  pub queue : List T
  pub closed : Bool

pub data Call (T : Type 0) : Type 0 where
  push : T → Call T
  push_batch : List T → Call T
  pop close : Call T

-- What a caller sees: `popped` is the return of `true` after the callback has had the item, `ended`
-- the return of `false`, `threw` the exception, and `waits` that the call has not come back.
pub data Outcome (T : Type 0) : Type 0 where
  done threw ended waits : Outcome T
  popped : T → Outcome T

module _ {T : Type 0} where
  abbrev pub new_queue : Queue T
  new_queue = record { queue = []; closed = false }

  unfoldable pub push_impl : T → Queue T → Outcome T × Queue T
  push_impl value q =
      if q.closed
      then (Outcome.threw, q)
      else (Outcome.done, record q { queue = q.queue ++ (value ∷ []) })

  unfoldable pub push_batch_impl : List T → Queue T → Outcome T × Queue T
  push_batch_impl items q =
      if q.closed then (Outcome.threw, q) else (Outcome.done, record q { queue = q.queue ++ items })

  abbrev pub pop_from : List T → Queue T → Outcome T × Queue T
  pop_from [] q = (if q.closed then Outcome.ended else Outcome.waits, q)
  pop_from (item ∷ rest) q = (Outcome.popped item, record q { queue = rest })

  unfoldable pub pop_impl : Queue T → Outcome T × Queue T
  pop_impl q = pop_from q.queue q

  abbrev pub close_impl : Queue T → Queue T
  close_impl q = record q { closed = true }

  abbrev pub is_closed_impl : Queue T → Bool
  is_closed_impl q = q.closed

  abbrev pub empty_impl : Queue T → Bool
  empty_impl q = elim q.queue [ [] ↦ true | x ∷ xs ↦ false ]

  abbrev pub size_impl : Queue T → ℕ
  size_impl q = length q.queue

  unfoldable pub step : Call T → Queue T → Outcome T × Queue T
  unfolding push_impl push_batch_impl pop_impl
  step (Call.push x) q = push_impl x q
  step (Call.push_batch xs) q = push_batch_impl xs q
  step Call.pop q = pop_impl q
  step Call.close q = (Outcome.done, close_impl q)
