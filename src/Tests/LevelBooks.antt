-- ===== src/Tests/LevelBooks.antt =====
-- The books over ordered maps (src/order_book/MapOrderBook.cpp, src/order_book/AbseilOrderBook.cpp),
-- with the maps of `StdMap`.
use back_tester.Prelude.{
  ◌%◌, ◌^◌, ◌≡◌, refl, true, false, some, pos, ◌+◌, [], ◌∷◌, nat_key, find, assign, ◌+ℤ◌, arith,
}
use back_tester.Event.{Side, Action, MarketDataEvent, is_price_defined}
use back_tester.LevelMap.{ascending, descending}
use back_tester.LevelMap.StdMap.{
  Entries, std_map, insert, ascending-IsStrictOrder, descending-IsStrictOrder,
}
use back_tester.MapOrderBook.{
  LevelMaps, Book, empty_book, apply, best_price, volume_at, apply_add, rest_order, add_to_level,
  rests_unpriced,
}
use back_tester.MapOrderBook.Levels.{quantity}
use back_tester.MapOrderBook.Volume.{IsConsistent, resting, share}
use back_tester.MapOrderBook.Consistent.{
  run, AllFit, apply-IsConsistent_bounded, empty_book-IsConsistent, volume_at-run_bounded,
}
use back_tester.MapOrderBook.Best.{has_level}
use back_tester.AbseilOrderBook
use back_tester.AbseilOrderBook.Agrees.{run-agrees, AllFresh}
use back_tester.AbseilOrderBook.Duplicates.{duplicate_keeps_volume}
use back_tester.Tests.{event, stream, quiet, bid_5, bid_3, ask_4}

abbrev Bids : Type 0
Bids = Entries descending descending-IsStrictOrder

abbrev Asks : Type 0
Asks = Entries ascending ascending-IsStrictOrder

instance abbrev std_maps : LevelMaps Bids Asks
std_maps = record {
  bid_map = std_map descending descending-IsStrictOrder;
  ask_map = std_map ascending ascending-IsStrictOrder;
}

abbrev new_book : Book Bids Asks
new_book = empty_book

bid_book : Book Bids Asks
bid_book = (apply bid_5 new_book quiet).0

bid_book-IsConsistent : IsConsistent bid_book
unfolding bid_book
bid_book-IsConsistent = apply-IsConsistent_bounded bid_5 new_book quiet empty_book-IsConsistent tt

stream_fits : AllFit stream new_book quiet
unfolding find apply apply_add is_price_defined rest_order assign add_to_level
stream_fits = (tt, (tt, (tt, (omega arith, tt))))

volume_at-run_bounded_example :
    (volume_at Side.buy (pos 100) (run stream new_book quiet).0
      ≡ resting true (pos 100) (run stream new_book quiet).0.order_index % 2 ^ 64)
    × (volume_at Side.sell (pos 100) (run stream new_book quiet).0
        ≡ resting false (pos 100) (run stream new_book quiet).0.order_index % 2 ^ 64)
volume_at-run_bounded_example =
    volume_at-run_bounded stream new_book quiet (pos 100) empty_book-IsConsistent stream_fits

-- What the one bid of the book shows.
bid_book_reads :
    (best_price Side.buy bid_book ≡ some (pos 100))
    × (has_level Side.buy (pos 100) bid_book ≡ true)
    × (find 1 bid_book.order_index ≡ some (record { side = Side.buy; price = pos 100; size = 5 }))
unfolding bid_book best_price find apply apply_add is_price_defined rest_order assign add_to_level
    std_map insert ◌+ℤ◌
bid_book_reads = (refl, refl, refl)

ask_book : Book Bids Asks
ask_book = (apply ask_4 new_book quiet).0

ask_book_reads :
    (best_price Side.sell ask_book ≡ some (pos 105))
    × (has_level Side.sell (pos 105) ask_book ≡ true)
unfolding ask_book best_price find apply apply_add is_price_defined rest_order assign add_to_level
    std_map insert ◌+ℤ◌
ask_book_reads = (refl, refl)

-- No add of two bids with two ids is a duplicate.
bids_fresh : AllFresh (bid_5 ∷ bid_3 ∷ []) new_book
unfolding find AbseilOrderBook.apply AbseilOrderBook.apply_add is_price_defined
    AbseilOrderBook.rest_order assign add_to_level
bids_fresh = (tt, (tt, tt))

run-agrees_example :
    AbseilOrderBook.Agrees.run (bid_5 ∷ bid_3 ∷ []) new_book
    ≡ (run (bid_5 ∷ bid_3 ∷ []) new_book quiet).0
run-agrees_example = run-agrees (bid_5 ∷ bid_3 ∷ []) new_book quiet bids_fresh

-- The first bid once more, with size 9.
abbrev bid_9 : MarketDataEvent
bid_9 = event Action.add 1 Side.buy 100 9

bid_9-rests : rests_unpriced bid_9 ≡ false
unfolding is_price_defined
bid_9-rests = refl

duplicate_keeps_volume_example :
    quantity true (pos 100) (AbseilOrderBook.apply bid_9 bid_book)
    ≡ pos (
        resting true (pos 100) (AbseilOrderBook.apply bid_9 bid_book).order_index
        + share true (pos 100) (record { side = Side.buy; price = pos 100; size = 5 }))
duplicate_keeps_volume_example =
    duplicate_keeps_volume bid_9 bid_book (record { side = Side.buy; price = pos 100; size = 5 })
      true (pos 100) bid_book-IsConsistent refl bid_book_reads.2 bid_9-rests
