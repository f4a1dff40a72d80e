-- ===== src/BatchPusher.antt =====
-- `BatchPusher` and the thread of a file in src/main/main.cpp. The array `batch` is the list of its
-- first `count` slots. Only this thread closes the queue, so that what `is_closed` gives it is known;
-- its calls of the queue come between the calls of the merger in any order.
pub mod Delivery
use back_tester.Prelude.{
  ℕ, leb, ltb, Bool, true, false, not, ◌&&◌, List, [], ◌∷◌, ◌++◌, length, if◌then◌else◌,
}
use back_tester.BlockingQueue.{Call}

-- `BatchSize`
abbrev pub batch_size : ℕ
batch_size = 256

module _ {T : Type 0} where
  -- `flush`, given what `queue.is_closed()` says: the calls that it makes and the batch after it.
  unfoldable pub flush : Bool → List T → List (Call T) × List T
  flush closed batch =
      if ltb 0 (length batch) && not closed then (Call.push_batch batch ∷ [], []) else ([], batch)

  -- `push`, while there is room for the item.
  unfoldable pub push : Bool → T → List T → List (Call T) × List T
  unfolding flush
  push closed item batch =
      if leb batch_size (length (batch ++ item ∷ []))
      then flush closed (batch ++ item ∷ [])
      else ([], batch ++ item ∷ [])

  -- The callback of `ingest` on each event of the file.
  unfoldable pub push_events : List T → List T → List (Call T) × List T
  unfolding push
  push_events [] batch = ([], batch)
  push_events (e ∷ es) batch =
      let (calls, batch') = push false e batch in
      let (more, last) = push_events es batch' in (calls ++ more, last)

  -- The thread: `ingest`, then `close`, then the destructor of the batch pusher, which flushes.
  unfoldable pub producer : List T → List (Call T)
  unfolding push_events flush
  producer es = let (calls, batch) = push_events es [] in calls ++ Call.close ∷ (flush true batch).0
