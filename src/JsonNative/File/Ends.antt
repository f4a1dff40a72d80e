-- ===== src/JsonNative/File/Ends.antt =====
-- The loop of `parse_inner` in src/ingestion/JsonNativeDataParser.cpp ends.
use back_tester.Prelude.{ℕ, zero, suc, ◌≤◌, ◌<◌, ◌≡◌, refl, ap, List, [], ◌∷◌, length, arith}
use back_tester.JsonNative.Scan.{Text, skip_while, length-skip_while, length-advance}
use back_tester.JsonNative.Fields.{Parsed}
use back_tester.JsonNative.Line.{parse_line}
use back_tester.JsonNative.Line.Values.{Consumes, parse_line-Consumes}
use back_tester.JsonNative.File.{
  Item, is_blank, not_newline, past_newline, take_item, take_line, parse_lines,
}

-- A text that is not empty loses a character.
past_newline-length :
    (q : Text) (bound : ℕ) → length q < suc bound → 0 < bound → length (past_newline q) < bound
unfolding past_newline skip_while
past_newline-length [] bound h pos = omega (arith, pos)
past_newline-length (c ∷ q) bound h pos =
    ground (arith, length-skip_while not_newline q, length-advance (skip_while not_newline q))

Later : ℕ → (Text → List Item) → (Text → List Item) → Type 0
Later bound again again' = (q : Text) → length q < bound → again q ≡ again' q

take_item-eq :
    (again again' : Text → List Item) (p : Text)
    → 0 < length p
    → Later (length p) again again'
    → (r : Parsed) → Consumes p r
    → take_item again r ≡ take_item again' r
unfolding Later
take_item-eq again again' p some_left later (Parsed.ok e q) h =
    ap (λ items. Item.event e ∷ items) (later q h)
take_item-eq again again' p some_left later (Parsed.threw why q) h =
    ap (λ items. Item.skipped why ∷ items)
      (later (past_newline q) (past_newline-length q (length p) (omega (arith, h)) some_left))

take_line-eq :
    (again again' : Text → List Item) (p : Text)
    → Later (length p) again again'
    → take_line again p ≡ take_line again' p
take_line-eq again again' [] later = refl
take_line-eq again again' (c ∷ p) later =
    take_item-eq again again' (c ∷ p) (omega arith) later (parse_line (c ∷ p))
      (parse_line-Consumes (c ∷ p))

-- With more fuel than there are characters, the amount of the fuel does not matter.
pub parse_lines-enough :
    (fuel fuel' : ℕ) (p : Text)
    → length p < fuel
    → length p < fuel'
    → parse_lines fuel p ≡ parse_lines fuel' p
unfolding parse_lines Later
parse_lines-enough zero fuel' p h h' = absurd (omega (arith, h))
parse_lines-enough (suc fuel) zero p h h' = absurd (omega (arith, h'))
parse_lines-enough (suc fuel) (suc fuel') p h h' =
    take_line-eq (parse_lines fuel) (parse_lines fuel') (skip_while is_blank p) (λ q small.
      let left : length (skip_while is_blank p) ≤ length p = length-skip_while is_blank p in
      parse_lines-enough fuel fuel' q (omega arith) (omega arith))
