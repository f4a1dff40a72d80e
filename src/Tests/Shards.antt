-- ===== src/Tests/Shards.antt =====
-- The sharded router (src/order_book/ShardedOrderBookRouter.hpp) with two shards, whose threads apply an
-- event and come to print, and what is printed (src/order_book/OrderBook.hpp).
use back_tester.Prelude.{
  ◌≤◌, ◌+◌, ◌-◌, ◌/◌, ◌^◌, ◌%◌, ◌≡◌, refl, true, ◌∷◌, [], List, length, map, pos, All, find, assign,
  erase, nat_key, int_key, ◌+ℤ◌, ◌-ℤ◌, arith,
}
use back_tester.Event.{Side, is_price_defined}
use back_tester.SimpleOrderBookRouter.{empty_router, book_of}
use back_tester.SimpleOrderBookRouter.Routing
use back_tester.LimitOrderBook.{
  Book, empty_book, side_levels, apply, cancel_order, add_order, join_level, cancel_known,
}
use back_tester.PriceLevel.{avl_insert}
use back_tester.LimitOrderBook.LogFree.{limit_order_book}
use back_tester.LimitOrderBook.Listing.{IsListing, side_levels-run}
use back_tester.LimitOrderBook.Consistent
use back_tester.OrderBook.{grouped, per_group}
use back_tester.OrderBook.Slices.{Level, summary}
use back_tester.OrderBook.Groups.{concat, IsGroup, grouped-covers}
use back_tester.ShardedOrderBookRouter.{pushed_to}
use back_tester.ShardedOrderBookRouter.Threads.{Phase, Action, start, run}
use back_tester.ShardedOrderBookRouter.Worked.{pending}
use back_tester.ShardedOrderBookRouter.Barrier.{printing-run, book_of-printing}
use back_tester.ShardedOrderBookRouter.Calls.{accepted}
use back_tester.ShardedOrderBookRouter.Draining.{IsInner}
use back_tester.ShardedOrderBookRouter.Progress.{returned, returned-run}
use back_tester.Tests.{stream, quiet, bid_5}

-- Both promises are pushed before the worker of shard 1 has seen the event.
abbrev steps : List Action
steps =
    Action.apply bid_5
    ∷ Action.print
    ∷ Action.work 0
    ∷ Action.advance
    ∷ Action.work 1
    ∷ Action.advance
    ∷ Action.advance
    ∷ Action.advance
    ∷ Action.work 0
    ∷ Action.work 0
    ∷ Action.advance
    ∷ Action.work 1
    ∷ Action.work 1
    ∷ Action.advance
    ∷ Action.work 1
    ∷ Action.advance
    ∷ Action.advance
    ∷ []

steps_print : (run 2 steps (start {B = Book} quiet)).phase ≡ Phase.printing
unfolding run find assign
steps_print = refl

printing-run_example :
    (pending ((run 2 steps (start {B = Book} quiet)).shards 1) ≡ [])
    × (((run 2 steps (start {B = Book} quiet)).shards 1).router
        ≡ (Routing.run
            (pushed_to 2 1 (accepted {B = Book} 2 steps (start quiet) []) [])
            empty_router
            quiet).0)
printing-run_example = printing-run 2 steps quiet quiet 1 steps_print (omega arith)

book_of-printing_example :
    book_of {B = Book} 7 ((run 2 steps (start {B = Book} quiet)).shards (7 % 2)).router
    ≡ book_of {B = Book} 7
        (Routing.run (accepted {B = Book} 2 steps (start quiet) []) empty_router quiet).0
book_of-printing_example = book_of-printing 2 steps quiet 7 steps_print (omega arith) (omega arith)

-- Both promises are pushed and no worker has begun.
abbrev waiting_steps : List Action
waiting_steps =
    Action.apply bid_5 ∷ Action.print ∷ Action.advance ∷ Action.advance ∷ Action.advance ∷ []

steps_wait : (run 2 waiting_steps (start {B = Book} quiet)).phase ≡ Phase.waiting 0
unfolding run find assign
steps_wait = refl

returned-run_example :
    (rest : List Action) × All IsInner rest
    × ((run 2 rest (run 2 waiting_steps (start {B = Book} quiet))).phase
        ≡ returned (run 2 waiting_steps (start {B = Book} quiet)).phase)
returned-run_example = returned-run Book 2 waiting_steps quiet

stream_levels :
    (side_levels Side.buy (Consistent.run stream empty_book quiet).0
      ≡ (pos 101, pos 3) ∷ (pos 100, pos 2) ∷ [])
    × (side_levels Side.sell (Consistent.run stream empty_book quiet).0 ≡ (pos 105, pos 4) ∷ [])
unfolding Consistent.run side_levels find assign erase ◌+ℤ◌ ◌-ℤ◌ apply cancel_order add_order
    is_price_defined join_level cancel_known avl_insert
stream_levels = (refl, refl)

side_levels-run_example :
    IsListing true
      (Consistent.run stream empty_book quiet).0.orders
      (side_levels Side.buy (Consistent.run stream empty_book quiet).0)
side_levels-run_example = side_levels-run true stream quiet

abbrev three_levels : List Level
three_levels = (pos 105, 4) ∷ (pos 106, 1) ∷ (pos 109, 2) ∷ []

-- Three levels in two groups.
grouped_three : grouped 2 three_levels ≡ (pos 105, pos 106, 5) ∷ (pos 109, pos 109, 2) ∷ []
unfolding grouped
grouped_three = refl

grouped-covers_example :
    (parts : List (List Level)) × (concat parts ≡ three_levels)
    × (length parts ≤ 2)
    × All (IsGroup ((length three_levels + 2 - 1) / 2)) parts
    × (grouped 2 three_levels ≡ map summary parts)
grouped-covers_example = grouped-covers 2 three_levels (omega arith) (omega arith) (omega arith)

-- For a number of groups near 2 ^ 64 the sum wraps, no level goes into a group, and each row reads past
-- the levels.
per_group_wraps : per_group 3 (2 ^ 64 - 1) ≡ 0
per_group_wraps = refl
