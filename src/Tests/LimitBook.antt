-- ===== src/Tests/LimitBook.antt =====
-- `LimitOrderBook` (src/order_book/LimitOrderBook.cpp) on the shared stream.
use back_tester.Prelude.{
  ◌%◌, ◌^◌, ◌≡◌, refl, true, false, none, some, pos, [], nat_key, find, assign, ◌+ℤ◌, ◌-ℤ◌,
}
use back_tester.Event.{Side, is_price_defined}
use back_tester.LimitOrderBook.{
  empty_book, apply, best_price, volume_at, add_order, cancel_order, cancel_known, join_level,
}
use back_tester.LimitOrderBook.Sums.{resting}
use back_tester.LimitOrderBook.Moves.{IsConsistent}
use back_tester.LimitOrderBook.Consistent.{
  run, apply-IsConsistent, run_empty-IsConsistent, volume_at-run,
}
use back_tester.PriceLevel.Height.{IsShallow}
use back_tester.LimitOrderBook.Height.{height-run}
use back_tester.LimitOrderBook.Best.{
  IsBestBid, IsBestAsk, best_price-IsBestBid, best_price-IsBestAsk,
}
use back_tester.LimitOrderBook.Orders.{after, find-run}
use back_tester.Tests.{stream, quiet, cut_to_2}

stream_reads :
    (best_price Side.buy (run stream empty_book quiet).0 ≡ some (pos 101))
    × (best_price Side.sell (run stream empty_book quiet).0 ≡ some (pos 105))
    × (volume_at Side.buy (pos 100) (run stream empty_book quiet).0 ≡ 2)
    × (volume_at Side.sell (pos 105) (run stream empty_book quiet).0 ≡ 4)
unfolding run apply best_price volume_at add_order cancel_order cancel_known join_level find
    is_price_defined assign ◌+ℤ◌ ◌-ℤ◌
stream_reads = (refl, refl, refl, refl)

empty_reads : best_price Side.buy (run [] empty_book quiet).0 ≡ none
unfolding run best_price
empty_reads = refl

apply-IsConsistent_example : IsConsistent (apply cut_to_2 (run stream empty_book quiet).0 quiet).0
apply-IsConsistent_example =
    apply-IsConsistent cut_to_2 (run stream empty_book quiet).0 quiet
      (run_empty-IsConsistent stream quiet)

volume_at-run_example :
    (volume_at Side.buy (pos 100) (run stream empty_book quiet).0
      ≡ resting true (pos 100) (run stream empty_book quiet).0.orders % 2 ^ 64)
    × (volume_at Side.sell (pos 100) (run stream empty_book quiet).0
        ≡ resting false (pos 100) (run stream empty_book quiet).0.orders % 2 ^ 64)
volume_at-run_example = volume_at-run stream quiet (pos 100)

best_price-IsBestBid_example :
    IsBestBid
      (best_price Side.buy (run stream empty_book quiet).0)
      (run stream empty_book quiet).0.orders
best_price-IsBestBid_example = best_price-IsBestBid stream quiet

best_price-IsBestAsk_example :
    IsBestAsk
      (best_price Side.sell (run stream empty_book quiet).0)
      (run stream empty_book quiet).0.orders
best_price-IsBestAsk_example = best_price-IsBestAsk stream quiet

height-run_example :
    IsShallow (run stream empty_book quiet).0.bid.tree
    × IsShallow (run stream empty_book quiet).0.ask.tree
height-run_example = height-run stream quiet

find-run_example : find 1 (run stream empty_book quiet).0.orders ≡ after stream (λ j. none) 1
find-run_example = find-run stream quiet 1
