-- ===== src/ShardedOrderBookRouter.antt =====
-- src/order_book/ShardedOrderBookRouter.hpp, with `N` for `NumShards`. This file has the choice of the
-- shard, and what is pushed to a shard over a stream of events; `Threads` has the router with its
-- queues, its workers and the steps of `apply`, `sync_all` and `close`.
pub mod Agreement
pub mod Threads
pub mod Worked
pub mod Marks
pub mod Places
pub mod Pushes
pub mod Owner
pub mod Advance
pub mod Calls
pub mod Barrier
pub mod Printing
pub mod Draining
pub mod Progress
use back_tester.Prelude.{
  ℕ, ◌%◌, Bool, not, ◌&&◌, ◌==◌, Option, none, some, List, [], ◌∷◌, if◌then◌else◌, Dict, nat_key,
  find,
}
use back_tester.Event.{MarketDataEvent}
use back_tester.SimpleOrderBookRouter.{or_default, register}

-- `instr_id`, as `apply_impl` finds it once the order is registered.
abbrev pub resolve : MarketDataEvent → Dict ℕ ℕ → ℕ
resolve e m =
    if not (e.instrument_id == 0)
    then e.instrument_id
    else (if not (e.order_id == 0) then or_default 0 (find e.order_id m) else 0)

-- The shard that `apply_impl` pushes to, or none where it logs an unresolved instrument.
unfoldable pub shard_of : ℕ → MarketDataEvent → Dict ℕ ℕ → Option ℕ
shard_of N e m =
    if (resolve e m == 0) && not (e.order_id == 0) then none else some (resolve e m % N)

abbrev pub sent_to : ℕ → Option ℕ → Bool
sent_to s none = Bool.false
sent_to s (some k) = k == s

-- What `apply_impl` pushes to the queue of shard `s` over a stream of events.
unfoldable pub pushed_to : ℕ → ℕ → List MarketDataEvent → Dict ℕ ℕ → List MarketDataEvent
unfolding register shard_of
pushed_to N s [] m = []
pushed_to N s (e ∷ es) m =
    let m' = register e m in
    let rest = pushed_to N s es m' in if sent_to s (shard_of N e m') then e ∷ rest else rest
