-- ===== src/Lib.antt =====
-- A verification library of the back-tester: an engine that reads market-by-order events from files,
-- merges them by time, and keeps an order book for each instrument.
--
-- The parts and how they interact. Parsers (src/ingestion) push the events of each file into a queue
-- (src/common). A merger takes the queues and passes one stream on, ordered by `ts_recv`. A router
-- (src/order_book) hands each event to the book of its instrument. A book has one of three
-- implementations behind the class `OrderBook`: `LimitOrderBook` (AVL trees of price levels with their
-- orders), `MapOrderBook` and `AbseilOrderBook` (ordered maps from price to quantity). Books and
-- routers report what is wrong in the stream to an anomaly log.
--
-- Which file models which part:
--   Event, Event/Flags: src/common/MarketDataEvent.hpp, `Side` of src/common/BasicTypes.hpp.
--   AnomalyLog: src/order_book/BookAnomalyLog.cpp. The process-wide object is a value that is passed
--     along.
--   PriceLevel: the AVL tree of src/order_book/PriceLevel.cpp. Parent pointers are a path from the
--     node back to the root, which `rebalance_up` climbs.
--   BookSide, LimitOrderBook: src/order_book/LimitOrderBook.cpp. `BookSide` has what works on one
--     side, `LimitOrderBook` the functions of the class under their own names (`apply` for
--     `apply_impl`). `BookSide/Traversal` walks from a node to its neighbours in order, over a node
--     and the path to it, `LimitOrderBook/Listing` is about the levels so listed, and
--     `LimitOrderBook/Height` about the height of the trees.
--   OrderBook: the printing of src/order_book/OrderBook.hpp over any book with its queries, as the list of
--     what is written. `Slices` and `Groups` are about the groups of levels.
--   LevelMap, MapOrderBook: src/order_book/MapOrderBook.cpp over ordered maps, which are parameters
--     with the documented laws of `std::map`; `LevelMap/StdMap` fills them.
--   AbseilOrderBook: src/order_book/AbseilOrderBook.cpp over the same parameters.
--   BookOps, SimpleOrderBookRouter: src/order_book/SimpleOrderBookRouter.hpp over any book;
--     `LimitOrderBook/LogFree` fills the interface. `Printing` has what the router prints.
--   ShardedOrderBookRouter: src/order_book/ShardedOrderBookRouter.hpp. The file itself has the choice of a
--     shard, `Agreement` the agreement of the shards with one router, and `Threads` the threads: a step
--     is a call of a shard's queue or what stands between two calls, the owner's thread has a `Phase`,
--     and the steps of all threads come in some order. `Worked`, `Marks`, `Places`, `Pushes`, `Owner`,
--     `Advance` and `Calls` hold the invariant of these steps, `Barrier` is about the states in which the owner prints,
--     `Draining` and `Progress` about how its calls come to an end, and `Printing` has what it prints.
--   HierarchyMerger: src/ingestion/HierarchyMerger.hpp. A queue is the list of its events.
--   FlatMerger: src/ingestion/FlatMerger.hpp, over a heap that is a parameter with the documented laws
--     of `std::priority_queue`; `FlatMerger/ListHeap` fills it.
--   BlockingQueue: src/common/BlockingQueue.hpp. Each call is one step, and the calls of all threads
--     come in some order.
--   JsonNative: src/ingestion/JsonNativeDataParser.cpp. The pointer into the file is the list of the
--     bytes from it to the end. `Scan` has the scanning loops and `ndp_skipVal`, `Numbers` the number
--     parsers and the price, `Timestamp` `ndp_parseIso8601Nanos`, `Fields` and `Line` `ndp_parseHd` and
--     `ndp_parseLine`, and `File` `parse_inner`, where what the system calls give is a parameter.
--     `Print` is a printer of such files, for the round trips.
--   JsonSimple: src/ingestion/JsonSimpleDataParser.cpp, over the library functions that it calls; `Line`
--     has `parseLine` and `parse_inner`, `Lookup` what the lookups find.
--   Feather: src/ingestion/FeatherDataParser.cpp, over what Apache Arrow gives it: the results of its calls,
--     and the columns of each batch. A `double` is a parameter. `RoundTrip` has a writer of such batches.
--   Args: `parse_args` of src/main/args.cpp over a file system that is a parameter.
--   LockFreeQueue: src/common/LockFreeQueue.hpp at its default capacity of 8192. A step is one access to
--     a shared variable, and the steps of the two threads come in some order. `Read` has the slots read
--     round the ring, `Sound` the order of the indices, `ProducerSteps` and `ConsumerSteps` the
--     steps, `Fifo` and `Progress` the runs, and `Counts` what `size_impl` and `empty_impl` give, which
--     make two loads each.
--   BatchPusher: the struct of that name and the thread of a file in src/main/main.cpp, as the calls that
--     it makes of its queue.
--   EventSink: `ProcessMarketDataEvent` and the dispatcher's thread in src/main/main.cpp.
--   Main: `main` of src/main/main.cpp as a function of its arguments and files, since its threads share
--     queues only. `Outcome` is about how it ends.
--   Tests: runs of all of these on small inputs.
--
-- Numbers. Unsigned fields are natural numbers, and where the code reads an `int64_t` as `uint64_t`, counts
-- up a `uint64_t` or computes an index as a `size_t`, the wrap-around is written out. Where an `int64_t`
-- of a parser overflows, which C++ leaves undefined, it wraps. Level quantities are integers without
-- bound: the quantity of a level is a sum of 32-bit sizes, which passes 2 ^ 63 only with more than
-- 2 ^ 31 orders.
--
-- Fuel. `merge_loop` has a turn for each event of its two queues, `drain_heap` one for each event of all
-- queues, and the pairing rounds of `run_impl` one for each queue. A turn uses up an event, or a round
-- halves the queues while more than two are left, so that the code never has more turns than these.
-- The loops of `ndp_parseHd` and `ndp_parseLine` have as many turns as there are characters after the
-- opening brace, and one more, and the loop of `parse_inner` one more than the file has; each turn but
-- the last passes a character. The walks through a tree have as many turns as it has nodes, and each
-- goes on to another node. The loop over the groups of levels has the number of groups asked for, and the
-- rows of a batch are counted down. All other recursion is structural.
--
-- Not modelled: mode 2 of the main program, the clock and what is measured with it, the thread that writes
-- to the terminal, the constructor of the anomaly log, which opens
-- its files, allocation and memory resources, memory orders weaker than sequential consistency, and the
-- benchmarks.
pub mod OrderBook
pub mod Prelude
pub mod Event
pub mod LevelMap
pub mod AnomalyLog
pub mod MapOrderBook
pub mod AbseilOrderBook
pub mod PriceLevel
pub mod BookSide
pub mod LimitOrderBook
pub mod HierarchyMerger
pub mod FlatMerger
pub mod BlockingQueue
pub mod BatchPusher
pub mod LockFreeQueue
pub mod BookOps
pub mod SimpleOrderBookRouter
pub mod ShardedOrderBookRouter
pub mod JsonNative
pub mod JsonSimple
pub mod Feather
pub mod Args
pub mod EventSink
pub mod Main
pub mod Tests
