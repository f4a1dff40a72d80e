-- ===== src/SimpleOrderBookRouter/Printing.antt =====
-- What src/order_book/SimpleOrderBookRouter.hpp prints. The books come in the order of the map, which
-- a `std::unordered_map` leaves open.
use Prim.Native.String.{String}
use back_tester.Prelude.{ℕ, Bool, true, false, Option, none, some, List, [], ◌∷◌, ◌++◌, ℤ, Dict}
use back_tester.Event.{Side}
use back_tester.OrderBook.{Piece, Queries, print_grouped}
use back_tester.SimpleOrderBookRouter.{Router}

-- `!best_bid && !best_ask`
abbrev pub neither : Option ℤ → Option ℤ → Bool
neither none none = true
neither best_bid best_ask = false

module _ {B : Type 0} ⦃q : Queries B⦄ where
  -- The body of the loop of `print_snapshot_impl`.
  unfoldable pub book_section : ℕ → ℕ → B → List Piece
  unfolding print_grouped
  book_section group_by_levels instrument_id b =
      elim (neither (q.best_price Side.buy b) (q.best_price Side.sell b)) [
        | true ↦ []
        | false ↦
            Piece.text "// "
            ∷ Piece.count instrument_id
            ∷ Piece.text "\n"
            ∷ print_grouped group_by_levels b
      ]

  print_books : ℕ → Dict ℕ B → List Piece
  unfolding book_section
  print_books group_by_levels [] = []
  print_books group_by_levels ((instrument_id, b) ∷ books) =
      book_section group_by_levels instrument_id b ++ print_books group_by_levels books

  unfoldable pub print_snapshot : ℕ → Router B → List Piece
  unfolding print_books
  print_snapshot group_by_levels r = print_books group_by_levels r.order_books

  -- The same loop, into a stream whose text is the result.
  unfoldable pub snapshot_as_string : ℕ → Router B → List Piece
  unfolding print_snapshot
  snapshot_as_string group_by_levels r = print_snapshot group_by_levels r

  abbrev pub best_line : String → Side → Option ℤ → B → List Piece
  best_line label side none b = Piece.text "  " ∷ Piece.text label ∷ Piece.text ": (empty)\n" ∷ []
  best_line label side (some p) b =
      Piece.text "  "
      ∷ Piece.text label
      ∷ Piece.text ": "
      ∷ Piece.int p
      ∷ Piece.text " x "
      ∷ Piece.count (q.volume_at side p b)
      ∷ Piece.text "\n"
      ∷ []

  -- The body of the loop of `print_best_bid_ask_impl`.
  unfoldable pub best_section : ℕ → B → List Piece
  best_section instrument_id b =
      let best_bid = q.best_price Side.buy b in
      let best_ask = q.best_price Side.sell b in
      elim (neither best_bid best_ask) [
        | true ↦ []
        | false ↦
            (Piece.text "Instrument " ∷ Piece.count instrument_id ∷ Piece.text ":\n" ∷ [])
            ++ (best_line "Best Bid" Side.buy best_bid b
                ++ best_line "Best Ask" Side.sell best_ask b)
      ]

  best_books : Dict ℕ B → List Piece
  unfolding best_section
  best_books [] = []
  best_books ((instrument_id, b) ∷ books) = best_section instrument_id b ++ best_books books

  unfoldable pub print_best_bid_ask : Router B → List Piece
  unfolding best_books
  print_best_bid_ask r =
      Piece.text "\n// ====== Final Best Bid/Ask ======\n"
      ∷ (best_books r.order_books ++ (Piece.text "// ====== End Best Bid/Ask ======\n" ∷ []))
