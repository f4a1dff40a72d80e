-- ===== src/LockFreeQueue.antt =====
-- src/common/LockFreeQueue.hpp at its default capacity: the ring of one producer and one consumer. A
-- step is one access to a shared variable, `head_`, `tail_` or `closed_`, with the work on variables of
-- the thread's own after it, and the steps of the threads come in any order. Each access is taken to
-- see the last store, which is more than the acquire and release that the code asks for. The slots of
-- the buffer are written in one step, since the consumer does not read them before `head_` is stored.
pub mod Read
pub mod Sound
pub mod ProducerSteps
pub mod ConsumerSteps
pub mod Fifo
pub mod Counts
pub mod Progress
use back_tester.Prelude.{
  ℕ, zero, suc, ◌+◌, ◌-◌, ◌^◌, ◌%◌, leb, ltb, Bool, true, false, ◌==◌, List, [], ◌∷◌, ◌++◌, length,
  if◌then◌else◌,
}

-- `Capacity`, and the modulus of a `std::size_t`. `x & MASK` is `x % capacity`.
abbrev pub capacity : ℕ
capacity = 8192

abbrev pub word : ℕ
word = 2 ^ 64

pub record Ring (T : Type 0) : Type 0 where
  pub buffer : ℕ → T
  pub head : ℕ
  pub tail_cached : ℕ
  pub tail : ℕ
  pub head_cached : ℕ
  pub closed : Bool

-- Where a call of the producer stands: it is about to test the cached tail, to load `closed_`, to load
-- `tail_`, or to store `head_` with the items written.
pub data Producer (T : Type 0) : Type 0 where
  idle : Producer T
  push_tests push_asks push_loads : T → Producer T
  batch_tests batch_asks batch_loads publishes : List T → Producer T

-- Where `pop` stands: about to load `head_` for the first time, to load `closed_`, to load `head_` once
-- more after the queue was closed, to load it again, or to take the item.
pub data Consumer : Type 0 where
  idle loads_first asks loads_last loads_again takes : Consumer

module _ {T : Type 0} where
  abbrev pub update : (ℕ → T) → ℕ → T → ℕ → T
  update b i x = λ j. if j == i then x else b j

  -- `buffer_[(h + i) & MASK] = std::move(items[i])` from `i` on.
  unfoldable pub write_from : (ℕ → T) → ℕ → ℕ → List T → ℕ → T
  write_from b h i [] = b
  write_from b h i (x ∷ xs) = write_from (update b ((h + i) % capacity) x) h (suc i) xs

  -- The free slots, as `push_batch_impl` computes them.
  abbrev pub free_slots : Ring T → ℕ
  free_slots r = (r.tail_cached + (word - r.head) + (word - 1) + capacity) % word % capacity

  -- The start of `push_impl` and of `push_batch_impl`; an exception leaves the producer idle.
  unfoldable pub begin_push : T → Ring T → Producer T
  begin_push x r = if r.closed then Producer.idle else Producer.push_tests x

  unfoldable pub begin_push_batch : List T → Ring T → Producer T
  begin_push_batch xs r =
      if r.closed
      then Producer.idle
      else (if length xs == 0
          then Producer.idle
          else (if leb capacity (length xs) then Producer.idle else Producer.batch_tests xs))

  -- The next step of the call.
  unfoldable pub producer_step : Producer T → Ring T → Producer T × Ring T
  producer_step Producer.idle r = (Producer.idle, r)
  producer_step (Producer.push_tests x) r =
      if (r.head + 1) % capacity == r.tail_cached
      then (Producer.push_asks x, r)
      else (Producer.publishes (x ∷ []), record r { buffer = update r.buffer r.head x })
  producer_step (Producer.push_asks x) r =
      (if r.closed then Producer.idle else Producer.push_loads x, r)
  producer_step (Producer.push_loads x) r =
      (Producer.push_tests x, record r { tail_cached = r.tail })
  producer_step (Producer.batch_tests xs) r =
      if ltb (free_slots r) (length xs)
      then (Producer.batch_asks xs, r)
      else (Producer.publishes xs, record r { buffer = write_from r.buffer r.head 0 xs })
  producer_step (Producer.batch_asks xs) r =
      (if r.closed then Producer.idle else Producer.batch_loads xs, r)
  producer_step (Producer.batch_loads xs) r =
      (Producer.batch_tests xs, record r { tail_cached = r.tail })
  producer_step (Producer.publishes xs) r =
      (Producer.idle, record r { head = (r.head + length xs) % capacity })

  -- The start of `pop_impl`.
  unfoldable pub begin_pop : Ring T → Consumer
  begin_pop r = if r.tail == r.head_cached then Consumer.loads_first else Consumer.takes

  -- The next step of the call, which hands out an item in its last.
  unfoldable pub consumer_step : Consumer → Ring T → Consumer × Ring T × List T
  consumer_step Consumer.idle r = (Consumer.idle, r, [])
  consumer_step Consumer.loads_first r = (
    if r.tail == r.head then Consumer.asks else Consumer.takes,
    record r { head_cached = r.head },
    [],
  )
  consumer_step Consumer.asks r =
      (if r.closed then Consumer.loads_last else Consumer.loads_again, r, [])
  consumer_step Consumer.loads_last r = (
    if r.tail == r.head then Consumer.idle else Consumer.takes,
    record r { head_cached = r.head },
    [],
  )
  consumer_step Consumer.loads_again r = (
    if r.tail == r.head then Consumer.asks else Consumer.takes,
    record r { head_cached = r.head },
    [],
  )
  consumer_step Consumer.takes r =
      (Consumer.idle, record r { tail = (r.tail + 1) % capacity }, r.buffer r.tail ∷ [])

  abbrev pub close_impl : Ring T → Ring T
  close_impl r = record r { closed = true }

  abbrev pub is_closed_impl : Ring T → Bool
  is_closed_impl r = r.closed

  -- Each of these makes two loads, between which the threads may go on: `size_impl` finds `r` when it
  -- loads `head_` and then `r'` when it loads `tail_`, and `empty_impl` finds `r` when it loads `tail_` and
  -- `r'` when it loads `head_`, in an order that C++ leaves open.
  unfoldable pub size_impl : Ring T → Ring T → ℕ
  size_impl r r' = (r.head + (word - r'.tail)) % word % capacity

  unfoldable pub empty_impl : Ring T → Ring T → Bool
  empty_impl r r' = r.tail == r'.head

-- The two threads, with what was published and what was handed out so far.
pub record System (T : Type 0) : Type 0 where
  pub ring : Ring T
  pub producer : Producer T
  pub consumer : Consumer
  pub sent : List T
  pub received : List T

pub data Action (T : Type 0) : Type 0 where
  push : T → Action T
  push_batch : List T → Action T
  produce pop consume close : Action T

abbrev pub begin_consumer : Consumer → Consumer → Consumer
begin_consumer Consumer.idle next = next
begin_consumer c next = c

module _ {T : Type 0} where
  -- What the next step of the producer publishes.
  abbrev pub published : Producer T → List T
  published (Producer.publishes xs) = xs
  published _ = []

  -- A call begins only when the thread's last one is over.
  abbrev pub begin : Producer T → Producer T → Producer T
  begin Producer.idle next = next
  begin p next = p

  unfoldable pub act : Action T → System T → System T
  act (Action.push x) s = record s { producer = begin s.producer (begin_push x s.ring) }
  act (Action.push_batch xs) s = record s {
    producer = begin s.producer (begin_push_batch xs s.ring);
  }
  act Action.produce s = record s {
    producer = (producer_step s.producer s.ring).0;
    ring = (producer_step s.producer s.ring).1;
    sent = s.sent ++ published s.producer;
  }
  act Action.pop s = record s { consumer = begin_consumer s.consumer (begin_pop s.ring) }
  act Action.consume s = record s {
    consumer = (consumer_step s.consumer s.ring).0;
    ring = (consumer_step s.consumer s.ring).1;
    received = s.received ++ (consumer_step s.consumer s.ring).2;
  }
  act Action.close s = record s { ring = close_impl s.ring }

  unfoldable pub run : List (Action T) → System T → System T
  run [] s = s
  run (a ∷ actions) s = run actions (act a s)

  -- A new queue, over whatever its buffer holds.
  abbrev pub new_system : (ℕ → T) → System T
  new_system b = record {
    ring = record {
      buffer = b;
      head = 0;
      tail_cached = 0;
      tail = 0;
      head_cached = 0;
      closed = false;
    };
    producer = Producer.idle;
    consumer = Consumer.idle;
    sent = [];
    received = [];
  }
