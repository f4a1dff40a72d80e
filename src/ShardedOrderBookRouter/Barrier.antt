-- ===== src/ShardedOrderBookRouter/Barrier.antt =====
-- When a function of src/order_book/ShardedOrderBookRouter.hpp prints, every shard has dealt with every
-- event that was applied.
use native.Mathlib.Nat.{mod-lt}
use back_tester.Prelude.{ℕ, ◌%◌, ◌<◌, ◌≡◌, ◌≢◌, sym, ap, ◌∙◌, List, [], ◌++◌, append-nil}
use back_tester.AnomalyLog.{BookAnomalyLog}
use back_tester.BookOps.{BookOps}
use back_tester.SimpleOrderBookRouter.{empty_router, book_of}
use back_tester.SimpleOrderBookRouter.Routing
use back_tester.ShardedOrderBookRouter.{pushed_to}
use back_tester.ShardedOrderBookRouter.Agreement.{shard-agrees}
use back_tester.ShardedOrderBookRouter.Threads.{Phase, Action, start, run}
use back_tester.ShardedOrderBookRouter.Worked.{pending}
use back_tester.ShardedOrderBookRouter.Marks.{events_in}
use back_tester.ShardedOrderBookRouter.Owner.{start-IsGood, IsGood-IsFine}
use back_tester.ShardedOrderBookRouter.Calls.{accepted, run-IsGood}

module _ {B : Type 0} ⦃ops : BookOps B⦄ (N : ℕ) where
  -- Under any order of the steps of the owner's thread and the workers of a new router, whenever the
  -- owner has come through `sync_all` to print, nothing is pending on a shard, and its router is the
  -- run on all events that were pushed to it for the events applied so far.
  pub printing-run :
      (acts : List Action) (l l' : BookAnomalyLog) (s : ℕ)
      → (run N acts (start {B = B} l)).phase ≡ Phase.printing
      → s < N
      → (pending ((run N acts (start {B = B} l)).shards s) ≡ [])
        × (((run N acts (start {B = B} l)).shards s).router
            ≡ (Routing.run
                (pushed_to N s (accepted N acts (start {B = B} l) []) [])
                empty_router
                l').0)
  printing-run acts l l' s at h =
      let es = accepted N acts (start {B = B} l) [] in
      let f =
        IsGood-IsFine N es Phase.printing (run N acts (start {B = B} l)) at
          (run-IsGood N acts (start l) [] (start-IsGood N l)) s h in
      let all : f.0.done ≡ pushed_to N s es [] =
        sym (append-nil f.0.done)
        ∙ ap (λ items. f.0.done ++ events_in items) (sym f.1.0)
        ∙ f.0.rest in
      (f.1.0, f.0.applied l' ∙ ap (λ d. (Routing.run d empty_router l').0) all)

  -- Under any order of the steps, when the owner prints, the book of an instrument other than 0 in the
  -- router of its shard is that of one `SimpleOrderBookRouter` on all events applied so far.
  pub book_of-printing :
      (acts : List Action) (l : BookAnomalyLog) (i : ℕ)
      → (run N acts (start {B = B} l)).phase ≡ Phase.printing
      → 0 < N
      → i ≢ 0
      → book_of {B = B} i ((run N acts (start {B = B} l)).shards (i % N)).router
        ≡ book_of {B = B} i (Routing.run (accepted N acts (start {B = B} l) []) empty_router l).0
  book_of-printing acts l i at some_shard h =
      let es = accepted N acts (start {B = B} l) [] in
      ap (λ r. book_of i r) (printing-run acts l l (i % N) at (mod-lt i some_shard)).1
      ∙ shard-agrees N i es l h
