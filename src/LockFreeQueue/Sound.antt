-- ===== src/LockFreeQueue/Sound.antt =====
-- What it means for the indices of src/common/LockFreeQueue.hpp to be in order.
use back_tester.Prelude.{ℕ, ◌+◌, ◌-◌, ◌%◌, ◌≤◌, ◌<◌, ◌≡◌, ◌≢◌, List, length}
use back_tester.LockFreeQueue.{capacity, Ring, Producer, Consumer}
use back_tester.LockFreeQueue.Read.{read}

abbrev pub SeesItem : Consumer → ℕ → ℕ → Type 0
SeesItem Consumer.takes tail head_cached = tail ≢ head_cached
SeesItem _ tail head_cached = Unit

module _ {T : Type 0} where
  -- The items published and not yet taken.
  abbrev pub count : Ring T → ℕ
  count r = (r.head + capacity - r.tail) % capacity

  -- The same, as the producer's copy of `tail_` has it.
  abbrev pub lag : Ring T → ℕ
  lag r = (r.head + capacity - r.tail_cached) % capacity

  abbrev pub contents : Ring T → List T
  contents r = read r.buffer r.tail (count r)

  -- The indices lie in the buffer, and each cached index lags behind the index that it is a copy of.
  pub record IsSound (r : Ring T) : Type 0 where
    pub head_small : r.head < capacity
    pub tail_small : r.tail < capacity
    pub tail_cached_small : r.tail_cached < capacity
    pub head_cached_small : r.head_cached < capacity
    pub tail_lags : count r ≤ lag r
    pub head_lags : (r.head_cached + capacity - r.tail) % capacity ≤ count r

  -- Before its store of `head_` the producer has written the items into free slots.
  abbrev pub HasWritten : Producer T → (ℕ → T) → ℕ → ℕ → Type 0
  HasWritten (Producer.publishes xs) buffer head lag =
      (read buffer head (length xs) ≡ xs) × (lag + length xs < capacity)
  HasWritten _ buffer head lag = Unit

  abbrev pub IsReady : Producer T → Ring T → Type 0
  IsReady p r = HasWritten p r.buffer r.head (lag r)

  -- Before it takes an item the consumer has seen that there is one.
  abbrev pub IsTaking : Consumer → Ring T → Type 0
  IsTaking c r = SeesItem c r.tail r.head_cached
