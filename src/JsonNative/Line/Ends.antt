-- ===== src/JsonNative/Line/Ends.antt =====
-- The loops of src/ingestion/JsonNativeDataParser.cpp over one line end.
use back_tester.Prelude.{
  ℕ, zero, suc, ◌+◌, ◌≤◌, ◌<◌, ◌≡◌, refl, Bool, true, false, ◌==◌, [], ◌∷◌, length, arith,
  Bool-cases, inl, inr, if◌then◌else◌,
}
use back_tester.Event.{MarketDataEvent}
use back_tester.JsonNative.Scan.{Text, skip_while, take_while, not_quote, past_quote}
use back_tester.JsonNative.Fields.{
  Parsed, Round, and_then, next_item, next_round, is_separator, is_colon,
}
use back_tester.JsonNative.Line.{take_round, object_loop, hd_field, line_field}
use back_tester.JsonNative.Line.Moves.{
  MovesOn, rest_of, round_cost, round_rest, next_round-length, hd_field-MovesOn,
}
use back_tester.JsonNative.Line.Values.{line_field-MovesOn}

-- At the end of the text or before a closing brace.
abbrev pub AtEnd : Text → Type 0
AtEnd [] = Unit
AtEnd (c ∷ p) = (c == b'}') ≡ true

-- A loop that has not thrown has stopped there.
abbrev pub StopsAtEnd : Parsed → Type 0
StopsAtEnd (Parsed.ok e q) = AtEnd q
StopsAtEnd (Parsed.threw why q) = Unit

abbrev RoundStops : Round → Type 0
RoundStops (Round.stops q) = AtEnd q
RoundStops _ = Unit

next_item-RoundStops : (p : Text) → RoundStops (next_item p)
unfolding next_item
next_item-RoundStops [] = tt
next_item-RoundStops (c ∷ p) = elim (Bool-cases (c == b'}')) [
  | inl brace ↦ rw brace brace
  | inr other ↦ rw other (after_brace (c == b'"'))
]
  where
    after_brace :
        (quote : Bool)
        → RoundStops (
            if quote
            then Round.key (take_while not_quote p) (skip_while is_colon (past_quote p))
            else Round.junk p)
    after_brace true = tt
    after_brace false = tt

next_round-RoundStops : (p : Text) → RoundStops (next_round p)
unfolding next_round
next_round-RoundStops p = next_item-RoundStops (skip_while is_separator p)

-- Two runs of the loop that both have more fuel than there are characters.
module _ (field : Text → MarketDataEvent → Text → Parsed)
    (field_moves : (name : Text) (e : MarketDataEvent) (p : Text)
      → MovesOn p (field name e p)) where
  -- What a round needs of the loop after it, for fewer characters.
  abbrev Later : ℕ → (MarketDataEvent → Text → Parsed) → (MarketDataEvent → Text → Parsed) → Type 0
  Later bound again again' =
      (e : MarketDataEvent) (q : Text)
      → length q < bound
      → (again e q ≡ again' e q) × StopsAtEnd (again e q)

  abbrev Alike : Parsed → Parsed → Type 0
  Alike r s = (r ≡ s) × StopsAtEnd r

  and_then-Alike :
      (again again' : MarketDataEvent → Text → Parsed) (bound : ℕ)
      → Later bound again again'
      → (r : Parsed) → length (rest_of r) < bound
      → Alike (and_then again r) (and_then again' r)
  and_then-Alike again again' bound later (Parsed.ok e q) h = later e q h
  and_then-Alike again again' bound later (Parsed.threw why q) h = (refl, tt)

  take_round-Alike :
      (again again' : MarketDataEvent → Text → Parsed) (bound : ℕ)
      → Later bound again again'
      → (e : MarketDataEvent) (r : Round) → round_cost r + length (round_rest r) ≤ bound
      → RoundStops r
      → Alike (take_round field again e r) (take_round field again' e r)
  take_round-Alike again again' bound later e (Round.stops q) h stop = (refl, stop)
  take_round-Alike again again' bound later e (Round.junk q) h stop = later e q (omega (arith, h))
  take_round-Alike again again' bound later e (Round.key name q) h stop =
      and_then-Alike again again' bound later (field name e q)
        (omega (arith, h, field_moves name e q))

  pub object_loop-Alike :
      (fuel fuel' : ℕ) (e : MarketDataEvent) (p : Text)
      → length p < fuel
      → length p < fuel'
      → Alike (object_loop field fuel e p) (object_loop field fuel' e p)
  unfolding object_loop
  object_loop-Alike zero fuel' e p h h' = absurd (omega (arith, h))
  object_loop-Alike (suc fuel) zero e p h h' = absurd (omega (arith, h'))
  object_loop-Alike (suc fuel) (suc fuel') e p h h' =
      take_round-Alike (object_loop field fuel) (object_loop field fuel') (length p)
        (λ e' q small. object_loop-Alike fuel fuel' e' q (omega arith) (omega arith)) e
        (next_round p) (next_round-length p) (next_round-RoundStops p)

-- With more fuel than there are characters left, each of the two loops ends by its own test or by an
-- exception, and the amount of the fuel does not matter.
pub object_loop-ends :
    (fuel : ℕ) (e : MarketDataEvent) (p : Text)
    → length p < fuel
    → (object_loop line_field fuel e p ≡ object_loop line_field (suc (length p)) e p)
      × StopsAtEnd (object_loop line_field fuel e p)
      × (object_loop hd_field fuel e p ≡ object_loop hd_field (suc (length p)) e p)
      × StopsAtEnd (object_loop hd_field fuel e p)
object_loop-ends fuel e p h =
    let line =
      object_loop-Alike line_field line_field-MovesOn fuel (suc (length p)) e p h (omega arith) in
    let hd =
      object_loop-Alike hd_field hd_field-MovesOn fuel (suc (length p)) e p h (omega arith) in
    (line.0, line.1, hd.0, hd.1)
