-- ===== src/ShardedOrderBookRouter/Printing.antt =====
-- What the functions of src/order_book/ShardedOrderBookRouter.hpp print, after `sync_all`.
use back_tester.Prelude.{ℕ, zero, suc, List, [], ◌∷◌, ◌++◌}
use back_tester.OrderBook.{Piece, Queries}
use back_tester.SimpleOrderBookRouter.{Router}
use back_tester.SimpleOrderBookRouter.Printing
use back_tester.ShardedOrderBookRouter.Threads.{Shard, System}

-- The loop over the shards, with the turns left.
each_shard : {B : Type 0} → (Router B → List Piece) → ℕ → ℕ → (ℕ → Shard B) → List Piece
each_shard print zero i shards = []
each_shard print (suc n) i shards = print (shards i).router ++ each_shard print n (suc i) shards

module _ {B : Type 0} ⦃q : Queries B⦄ where
  unfoldable pub print_snapshot : ℕ → ℕ → System B → List Piece
  unfolding each_shard Printing.print_snapshot
  print_snapshot N group_by_levels st =
      each_shard (Printing.print_snapshot group_by_levels) N 0 st.shards

  -- The routers print their own frames inside the frame.
  unfoldable pub print_best_bid_ask : ℕ → System B → List Piece
  unfolding each_shard Printing.print_best_bid_ask
  print_best_bid_ask N st =
      Piece.text "\n// ====== Final Best Bid/Ask ======\n"
      ∷ (each_shard Printing.print_best_bid_ask N 0 st.shards
          ++ (Piece.text "// ====== End Best Bid/Ask ======\n" ∷ []))

  unfoldable pub snapshot_as_string : ℕ → ℕ → System B → List Piece
  unfolding each_shard
  snapshot_as_string N group_by_levels st =
      each_shard (Printing.snapshot_as_string group_by_levels) N 0 st.shards
