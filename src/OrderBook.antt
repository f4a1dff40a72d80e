-- ===== src/OrderBook.antt =====
-- `print_snapshot` of src/order_book/OrderBook.hpp, for any book with the queries of that class. What
-- is written to a stream is the list of the arguments of `<<`, in order.
pub mod Slices
pub mod Groups
use Prim.Native.String.{String}
use back_tester.Prelude.{
  ℕ, zero, suc, ◌+◌, ◌-◌, ◌*◌, ◌/◌, ◌%◌, ◌^◌, min, ltb, List, [], ◌∷◌, ◌++◌, map, length, get_or, ℤ,
  Option, pos, if◌then◌else◌,
}
use back_tester.Event.{Side, to_u64}

pub data Piece : Type 0 where
  text : String → Piece
  int : ℤ → Piece
  count : ℕ → Piece

-- What the functions of the class pass on to the implementation.
pub record Queries (B : Type 0) : Type 0 where
  pub best_price : Side → B → Option ℤ
  pub volume_at : Side → ℤ → B → ℕ
  pub side_levels : Side → B → List (ℤ × ℤ)

abbrev pub level_lines : List (ℤ × ℤ) → List Piece
level_lines [] = []
level_lines ((price, qty) ∷ levels) =
    Piece.text "  "
    ∷ Piece.int price
    ∷ Piece.text " : "
    ∷ Piece.int qty
    ∷ Piece.text "\n"
    ∷ level_lines levels

-- `level_list`, a copy of the levels with quantities of type `uint64_t`.
abbrev pub level_list : List (ℤ × ℤ) → List (ℤ × ℕ)
level_list levels = map (λ lv. (lv.0, to_u64 lv.1)) levels

-- The modulus of a `size_t`.
abbrev pub word : ℕ
word = 2 ^ 64

-- Stands where an index is out of range, where the code reads past its vector.
abbrev pub no_level : ℤ × ℕ
no_level = (pos 0, 0)

-- The loop over `i`, with the turns left.
unfoldable pub total_from : ℕ → ℕ → ℕ → List (ℤ × ℕ) → ℕ
total_from zero i total_qty levels = total_qty
total_from (suc n) i total_qty levels =
    total_from n (suc i) ((total_qty + (get_or levels i no_level).1) % 2 ^ 64) levels

-- What the body of the loop over the groups prints: `min_price`, `max_price` and `total_qty`.
unfoldable pub group_row : ℕ → ℕ → List (ℤ × ℕ) → ℤ × ℤ × ℕ
unfolding total_from
group_row g levels_per_group levels =
    let start = g * levels_per_group % word in
    let end = min ((g + 1) % word * levels_per_group % word) (length levels) in
    (
      (get_or levels start no_level).0,
      (get_or levels ((end + word - 1) % word) no_level).0,
      total_from (end - start) start 0 levels,
    )

-- The loop over the groups, with the turns left to `group_by_levels`.
unfoldable pub group_rows : ℕ → ℕ → ℕ → List (ℤ × ℕ) → List (ℤ × ℤ × ℕ)
unfolding group_row
group_rows zero g levels_per_group levels = []
group_rows (suc n) g levels_per_group levels =
    let rest = group_rows n (suc g) levels_per_group levels in
    if ltb (g * levels_per_group % word) (length levels)
    then group_row g levels_per_group levels ∷ rest
    else []

-- `levels_per_group`
abbrev pub per_group : ℕ → ℕ → ℕ
per_group size group_by_levels = (size + group_by_levels + word - 1) % word / group_by_levels

-- The rows of one side. The code divides by `group_by_levels`, which must not be 0.
unfoldable pub grouped : ℕ → List (ℤ × ℕ) → List (ℤ × ℤ × ℕ)
unfolding group_rows
grouped group_by_levels levels =
    group_rows group_by_levels 0 (per_group (length levels) group_by_levels) levels

abbrev pub row_lines : List (ℤ × ℤ × ℕ) → List Piece
row_lines [] = []
row_lines ((min_price, max_price, total_qty) ∷ rows) =
    Piece.text "  ["
    ∷ Piece.int min_price
    ∷ Piece.text ", "
    ∷ Piece.int max_price
    ∷ Piece.text "] : "
    ∷ Piece.count total_qty
    ∷ Piece.text "\n"
    ∷ row_lines rows

abbrev pub side_name : Side → String
side_name Side.buy = "BUY"
side_name _ = "SELL"

-- The body of the loop over the sides, once the levels are there.
abbrev pub side_groups : ℕ → List (ℤ × ℤ) → List Piece
unfolding grouped
side_groups group_by_levels [] = Piece.text "  (empty)\n" ∷ []
side_groups group_by_levels (lv ∷ levels) =
    row_lines (grouped group_by_levels (level_list (lv ∷ levels)))

module _ {B : Type 0} ⦃q : Queries B⦄ where
  side_snapshot : Side → B → List Piece
  side_snapshot side b =
      Piece.text "// ----------------\n"
      ∷ Piece.text "// "
      ∷ Piece.text (side_name side)
      ∷ Piece.text "\n"
      ∷ Piece.text "// ----------------\n"
      ∷ level_lines (q.side_levels side b)

  -- `print_snapshot(out)`
  unfoldable pub print_snapshot : B → List Piece
  unfolding side_snapshot
  print_snapshot b = side_snapshot Side.buy b ++ side_snapshot Side.sell b

  side_grouped : ℕ → Side → B → List Piece
  side_grouped group_by_levels side b =
      Piece.text "// "
      ∷ Piece.text (side_name side)
      ∷ Piece.text "\n"
      ∷ side_groups group_by_levels (q.side_levels side b)

  -- `print_snapshot(out, group_by_levels)`
  unfoldable pub print_grouped : ℕ → B → List Piece
  unfolding side_grouped
  print_grouped group_by_levels b =
      side_grouped group_by_levels Side.buy b ++ side_grouped group_by_levels Side.sell b
