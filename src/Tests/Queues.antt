-- ===== src/Tests/Queues.antt =====
-- The queue of src/common/BlockingQueue.hpp on a few calls.
use back_tester.LockFreeQueue.{
  Consumer, Action, run, act, new_system, producer_step, consumer_step, begin_push,
  begin_push_batch, begin_pop, write_from, size_impl,
}
use back_tester.LockFreeQueue.Read.{read}
use back_tester.LockFreeQueue.Sound.{contents}
use back_tester.LockFreeQueue.Progress.{consumes, consume-run}
use back_tester.LockFreeQueue.Fifo.{received-run}
use back_tester.LockFreeQueue.Counts.{Observed, size_impl-run}
use back_tester.BatchPusher.{batch_size, producer}
use back_tester.BatchPusher.Delivery.{take, without_pops, inputs-producer}
use back_tester.Prelude.{◌≢◌, ℕ, zero, suc, ◌*◌, ◌/◌, length, ◌≡◌, refl, true, List, [], ◌∷◌, ◌++◌}
use back_tester.BlockingQueue.{
  Queue, Call, Outcome, new_queue, push_impl, push_batch_impl, pop_impl, step,
}
use back_tester.BlockingQueue.Fifo.{inputs, outputs, state_after, outputs-inputs, pop_impl-ended}

-- Three items go in and come out, a fourth comes too late.
abbrev calls : List (Call ℕ)
calls =
    Call.push_batch (1 ∷ 2 ∷ [])
    ∷ Call.pop
    ∷ Call.push 3
    ∷ Call.close
    ∷ Call.push 4
    ∷ Call.pop
    ∷ Call.pop
    ∷ []

calls_read :
    (outputs calls new_queue ≡ 1 ∷ 2 ∷ 3 ∷ [])
    × (inputs calls new_queue ≡ 1 ∷ 2 ∷ 3 ∷ [])
    × ((pop_impl (state_after calls new_queue)).0 ≡ Outcome.ended)
unfolding outputs inputs state_after step push_impl push_batch_impl pop_impl
calls_read = (refl, refl, refl)

outputs-inputs_example :
    outputs calls new_queue ++ (state_after calls new_queue).queue ≡ inputs calls new_queue
outputs-inputs_example = outputs-inputs calls

abbrev shut_queue : Queue ℕ
shut_queue = record { queue = 7 ∷ []; closed = true }

pop_impl-ended_example :
    (outputs calls new_queue ≡ inputs calls new_queue)
    × ((state_after calls new_queue).closed ≡ true)
    × (inputs (Call.push 5 ∷ []) (state_after calls new_queue) ≡ [])
pop_impl-ended_example = pop_impl-ended calls (Call.push 5 ∷ []) calls_read.2

-- A file of 258 events, and a pop of the merger before the thread's calls.
count_down : ℕ → List ℕ
count_down zero = []
count_down (suc n) = suc n ∷ count_down n

one_pop : without_pops (Call.pop ∷ producer (count_down 258)) ≡ producer (count_down 258)
unfolding without_pops producer count_down
one_pop = refl

inputs-producer_example :
    inputs (Call.pop ∷ producer (count_down 258)) new_queue
    ≡ take (batch_size * (length (count_down 258) / batch_size)) (count_down 258)
inputs-producer_example =
    inputs-producer (Call.pop ∷ producer (count_down 258)) (count_down 258) one_pop

-- So the last two events are lost.
last_two_lost : inputs (Call.pop ∷ producer (count_down 258)) new_queue ≡ take 256 (count_down 258)
unfolding count_down
last_two_lost = inputs-producer_example

-- Items 1 to 3 go through the ring, one alone and two in a batch, with a pop that waits between them.
abbrev actions : List (Action ℕ)
actions =
    Action.pop
    ∷ Action.consume
    ∷ Action.push 1
    ∷ Action.produce
    ∷ Action.consume
    ∷ Action.produce
    ∷ Action.consume
    ∷ Action.consume
    ∷ Action.push_batch (2 ∷ 3 ∷ [])
    ∷ Action.produce
    ∷ Action.produce
    ∷ Action.close
    ∷ []

abbrev zeros : ℕ → ℕ
zeros i = 0

ring_read :
    ((run actions (new_system zeros)).received ≡ 1 ∷ [])
    × ((run actions (new_system zeros)).sent ≡ 1 ∷ 2 ∷ 3 ∷ [])
    × (contents (run actions (new_system zeros)).ring ≡ 2 ∷ 3 ∷ [])
unfolding run act producer_step consumer_step begin_push begin_push_batch begin_pop write_from read
ring_read = (refl, refl, refl)

received-run_example :
    (run actions (new_system zeros)).received ++ contents (run actions (new_system zeros)).ring
    ≡ (run actions (new_system zeros)).sent
received-run_example = received-run actions zeros

-- One item goes through while an observer is between its loads.
abbrev meanwhile : List (Action ℕ)
meanwhile =
    Action.push 1
    ∷ Action.produce
    ∷ Action.produce
    ∷ Action.pop
    ∷ Action.consume
    ∷ Action.consume
    ∷ []

size_impl-run_example :
    Observed (run [] (new_system zeros)) (run meanwhile (run [] (new_system zeros)))
size_impl-run_example = size_impl-run [] meanwhile zeros

-- So the size of a ring that never held more than one item can come out as 8191.
stale_size : size_impl (new_system zeros).ring (run meanwhile (new_system zeros)).ring ≡ 8191
unfolding run act producer_step consumer_step begin_push begin_pop write_from size_impl
stale_size = refl

abbrev one_pushed : List (Action ℕ)
one_pushed = Action.push 1 ∷ Action.produce ∷ Action.produce ∷ Action.pop ∷ []

one_pushed_read :
    (contents (run one_pushed (new_system zeros)).ring ≡ 1 ∷ [])
    × ((run one_pushed (new_system zeros)).consumer ≢ Consumer.idle)
unfolding run act producer_step begin_push begin_pop read
one_pushed_read = (refl, λ e. cc)

consume-run_example :
    (run (consumes 3) (run one_pushed (new_system zeros))).received
    ≡ (run one_pushed (new_system zeros)).received ++ 1 ∷ []
consume-run_example = consume-run one_pushed zeros 1 [] one_pushed_read.0 one_pushed_read.1
