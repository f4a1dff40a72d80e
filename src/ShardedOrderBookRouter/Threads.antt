-- ===== src/ShardedOrderBookRouter/Threads.antt =====
-- The threads of src/order_book/ShardedOrderBookRouter.hpp: the thread that owns the router, and a
-- worker for each shard. A step of a thread is a call of a queue or what stands between two calls; the
-- steps of all threads come in any order, and one that has to wait changes nothing.
use back_tester.Prelude.{
  ℕ, suc, ltb, ◌==◌, Bool, true, false, Option, none, some, List, [], ◌∷◌, if◌then◌else◌, Dict,
}
use back_tester.Event.{MarketDataEvent}
use back_tester.AnomalyLog.{RouterAnomaly, BookAnomalyLog, log_router}
use back_tester.BookOps.{BookOps}
use back_tester.BlockingQueue.{Queue, Outcome, new_queue, push_impl, pop_impl, close_impl}
use back_tester.SimpleOrderBookRouter
use back_tester.SimpleOrderBookRouter.{Router, empty_router, register}
use back_tester.ShardedOrderBookRouter.{shard_of}

-- `ShardItem`. The promises of one `sync_all` go to different shards, so that its number and the
-- shard name one.
pub data Item : Type 0 where
  event : MarketDataEvent → Item
  promise : ℕ → Item

-- A queue with its router and its worker, and the promises that the worker has set. `in_hand` is what
-- `pop` hands to its callback, after it has left the queue and before the callback is done.
pub record Shard (B : Type 0) : Type 0 where
  pub queue : Queue Item
  pub router : Router B
  pub in_hand : Option Item
  pub ended : Bool
  pub fulfilled : ℕ → Bool

-- Where the owner's thread stands: in no call, at the push to a shard or the wait for a shard in
-- `sync_all`, after `sync_all` in a function that prints, or at the close or the join of a shard in
-- `close`.
pub data Phase : Type 0 where
  idle printing : Phase
  pushing waiting closing joining : ℕ → Phase

pub record System (B : Type 0) : Type 0 where
  pub shards : ℕ → Shard B
  pub order_to_instrument : Dict ℕ ℕ
  pub closed : Bool
  pub phase : Phase
  pub syncs : ℕ
  pub log : BookAnomalyLog

pub data Action : Type 0 where
  apply : MarketDataEvent → Action
  print close : Action
  advance : Action
  work : ℕ → Action

abbrev pub update {ℓ} : {A : Type ℓ} → (ℕ → A) → ℕ → A → ℕ → A
update f s v t = if s == t then v else f t

abbrev pub is_idle : Phase → Bool
is_idle Phase.idle = true
is_idle p = false

module _ {B : Type 0} where
  abbrev pub new_shard : Shard B
  new_shard = record {
    queue = new_queue;
    router = empty_router;
    in_hand = none;
    ended = false;
    fulfilled = λ n. false;
  }

  abbrev pub start : BookAnomalyLog → System B
  start l = record {
    shards = λ s. new_shard;
    order_to_instrument = [];
    closed = false;
    phase = Phase.idle;
    syncs = 0;
    log = l;
  }

  -- What a push leaves of a shard; on a closed queue it throws.
  unfoldable pub pushed : Item → Shard B → Shard B
  unfolding push_impl
  pushed item sh = record sh { queue = (push_impl item sh.queue).1 }

  abbrev pub on_shard : ℕ → (Shard B → Shard B) → System B → System B
  on_shard s f st = record st { shards = update st.shards s (f (st.shards s)) }

  -- `apply_impl` once the shard is known.
  unfoldable pub send : Option ℕ → MarketDataEvent → System B → System B
  unfolding pushed
  send none e st = record st { log = log_router RouterAnomaly.unresolved_instrument e st.log }
  send (some s) e st = on_shard s (pushed (Item.event e)) st

  -- `apply_impl`. The exception of a push on a closed queue goes to the caller.
  unfoldable pub apply_event : ℕ → MarketDataEvent → System B → System B
  unfolding register shard_of send
  apply_event N e st =
      let m = register e st.order_to_instrument in
      send (shard_of N e m) e (record st { order_to_instrument = m })

  -- A function that prints begins with `sync_all`, which returns at once on a closed router.
  abbrev pub begin_print : System B → System B
  begin_print st =
      if st.closed
      then record st { phase = Phase.printing }
      else record st { phase = Phase.pushing 0; syncs = suc st.syncs }

  abbrev pub begin_close : System B → System B
  begin_close st = if st.closed then st else record st { phase = Phase.closing 0; closed = true }

  -- A step of the owner inside a call, for `N` shards.
  unfoldable pub advance_from : ℕ → Phase → System B → System B
  unfolding pushed
  advance_from N Phase.idle st = st
  advance_from N Phase.printing st = record st { phase = Phase.idle }
  advance_from N (Phase.pushing s) st =
      let next = record st { phase = Phase.pushing (suc s) } in
      if ltb s N
      then (if (st.shards s).queue.closed
          then record st { phase = Phase.printing }
          else on_shard s (pushed (Item.promise st.syncs)) next)
      else record st { phase = Phase.waiting 0 }
  advance_from N (Phase.waiting s) st =
      if ltb s N
      then (if (st.shards s).fulfilled st.syncs
          then record st { phase = Phase.waiting (suc s) }
          else st)
      else record st { phase = Phase.printing }
  advance_from N (Phase.closing s) st =
      if ltb s N
      then on_shard s (λ sh. record sh { queue = close_impl sh.queue })
          (record st { phase = Phase.closing (suc s) })
      else record st { phase = Phase.joining 0 }
  advance_from N (Phase.joining s) st =
      if ltb s N
      then (if (st.shards s).ended then record st { phase = Phase.joining (suc s) } else st)
      else record st { phase = Phase.idle }

  -- What `pop` gives the worker.
  abbrev pub popped : Outcome Item × Queue Item → Shard B → Shard B
  popped (Outcome.popped item, q) sh = record sh { queue = q; in_hand = some item }
  popped (Outcome.ended, q) sh = record sh { ended = true }
  popped (o, q) sh = sh

  module _ ⦃ops : BookOps B⦄ where
    -- `ItemVisitor`
    unfoldable pub visit : Item → Shard B → BookAnomalyLog → Shard B × BookAnomalyLog
    visit (Item.event e) sh l =
        let (r, l') = SimpleOrderBookRouter.apply e sh.router l in
        (record sh { router = r; in_hand = none }, l')
    visit (Item.promise n) sh l =
        (record sh { in_hand = none; fulfilled = update sh.fulfilled n true }, l)

    -- A step of `worker_loop`: the callback on what was popped, or the next `pop`.
    abbrev pub work_on : Option Item → Shard B → BookAnomalyLog → Shard B × BookAnomalyLog
    unfolding visit pop_impl
    work_on (some item) sh l = visit item sh l
    work_on none sh l = (if sh.ended then sh else popped (pop_impl sh.queue) sh, l)

    unfoldable pub step : ℕ → Action → System B → System B
    unfolding apply_event advance_from visit pop_impl
    step N (Action.apply e) st = if is_idle st.phase then apply_event N e st else st
    step N Action.print st = if is_idle st.phase then begin_print st else st
    step N Action.close st = if is_idle st.phase then begin_close st else st
    step N Action.advance st = advance_from N st.phase st
    step N (Action.work s) st =
        let (sh, l) = work_on (st.shards s).in_hand (st.shards s) st.log in
        record st { shards = update st.shards s sh; log = l }

    unfoldable pub run : ℕ → List Action → System B → System B
    unfolding step
    run N [] st = st
    run N (a ∷ rest) st = run N rest (step N a st)
