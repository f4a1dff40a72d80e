-- ===== src/JsonNative/Print.antt =====
-- A printer of the lines that src/ingestion/JsonNativeDataParser.cpp parses: the fields of the object
-- hd and of the line in any order, each number in any sufficient count of digits.
pub mod Steps
pub mod Lists
pub mod Hd
pub mod Values
pub mod Line
pub mod File
use Prim.Native.Char.{code}
use Prim.Native.String.{String}
use back_tester.Prelude.{
  ℕ, zero, suc, ◌+◌, ◌/◌, ◌^◌, ◌<◌, ◌≡◌, ◌≢◌, List, [], ◌∷◌, ◌++◌, ℤ, pos, negsuc, pos_part,
  neg_part, All, not, true,
}
use back_tester.Event.{MarketDataEvent, RType, Action, Side}
use back_tester.JsonNative.Scan.{Text, not_quote}
use back_tester.JsonNative.Numbers.RoundTrip.{print_digits, print_int}
use back_tester.JsonNative.Numbers.Prices.{print_price}
use back_tester.JsonNative.Timestamp.RoundTrip.{Moment, IsMoment, print_moment, instant}

-- The codes of a text.
abbrev pub codes : String → Text
codes String.[] = []
codes (String.◌∷◌ c s) = code c ∷ codes s

-- "name":
abbrev pub print_key : String → Text → Text
print_key name value = b'"' ∷ codes name ++ b'"' ∷ b':' ∷ value

abbrev pub in_quotes : Text → Text
in_quotes text = b'"' ∷ text ++ b'"' ∷ []

-- `n` in 1 + `more` digits.
pub record Number : Type 0 where
  pub more : ℕ
  pub value : ℕ

abbrev pub print_number : Number → Text
print_number n = print_digits (suc n.more) n.value

abbrev pub IsBelow : ℕ → Number → Type 0
IsBelow bound n = (n.value < 10 ^ suc n.more) × (n.value < bound)

-- The code of a record type, the letter of an action and of a side.
unfoldable pub rtype_code : RType → ℕ
rtype_code RType.mbp0 = 0x00
rtype_code RType.mbp1 = 0x01
rtype_code RType.mbp10 = 0x0A
rtype_code RType.status = 0x12
rtype_code RType.definition = 0x13
rtype_code RType.imbalance = 0x14
rtype_code RType.error = 0x15
rtype_code RType.symbol_mapping = 0x16
rtype_code RType.system = 0x17
rtype_code RType.statistics = 0x18
rtype_code RType.ohlcv1s = 0x20
rtype_code RType.ohlcv1m = 0x21
rtype_code RType.ohlcv1h = 0x22
rtype_code RType.ohlcv1d = 0x23
rtype_code RType.mbo = 0xA0
rtype_code RType.cmbp1 = 0xB1
rtype_code RType.cbbo1s = 0xC0
rtype_code RType.cbbo1m = 0xC1
rtype_code RType.tcbbo = 0xC2
rtype_code RType.bbo1s = 0xC3
rtype_code RType.bbo1m = 0xC4
rtype_code (RType.other c) = c

unfoldable pub action_letter : Action → ℕ
action_letter Action.add = b'A'
action_letter Action.modify = b'M'
action_letter Action.cancel = b'C'
action_letter Action.clear = b'R'
action_letter Action.trade = b'T'
action_letter Action.fill = b'F'
action_letter Action.none = b'N'
action_letter (Action.other c) = c

unfoldable pub side_letter : Side → ℕ
side_letter Side.buy = b'B'
side_letter Side.sell = b'A'
side_letter Side.none = b'N'

-- One that the enumeration names.
abbrev pub IsNamedRType : RType → Type 0
IsNamedRType (RType.other c) = ⊥
IsNamedRType r = Unit

abbrev pub IsNamedAction : Action → Type 0
IsNamedAction (Action.other c) = ⊥
IsNamedAction a = Unit

-- The fields of the object hd.
pub data HdField : Type 0 where
  rtype : RType → HdField
  publisher_id instrument_id : Number → HdField
  ts_event : Moment → HdField

unfoldable pub print_hd_field : HdField → Text
unfolding rtype_code
print_hd_field (HdField.rtype r) =
    print_key "rtype" (print_number (record { more = 2; value = rtype_code r }))
print_hd_field (HdField.publisher_id n) = print_key "publisher_id" (print_number n)
print_hd_field (HdField.instrument_id n) = print_key "instrument_id" (print_number n)
print_hd_field (HdField.ts_event t) = print_key "ts_event" (in_quotes (print_moment t))

abbrev pub IsHdField : HdField → Type 0
IsHdField (HdField.rtype r) = IsNamedRType r
IsHdField (HdField.publisher_id n) = IsBelow (2 ^ 16) n
IsHdField (HdField.instrument_id n) = IsBelow (2 ^ 32) n
IsHdField (HdField.ts_event t) = IsMoment t

unfoldable pub set_hd_field : MarketDataEvent → HdField → MarketDataEvent
set_hd_field e (HdField.rtype r) = record e { rtype = r }
set_hd_field e (HdField.publisher_id n) = record e { publisher_id = n.value }
set_hd_field e (HdField.instrument_id n) = record e { instrument_id = n.value }
set_hd_field e (HdField.ts_event t) = record e { ts_event = pos (instant t) }

-- The fields of the line; a price has its units and the count of the digits of its whole part, and a
-- symbol is text that the parser passes over.
pub data LineField : Type 0 where
  hd : List HdField → LineField
  ts_recv : Moment → LineField
  action : Action → LineField
  side : Side → LineField
  price ts_in_delta : ℕ → ℤ → LineField
  null_price : LineField
  size flags channel_id sequence order_id : Number → LineField
  symbol : Text → LineField

-- Fields with commas between them, before what follows.
module _ {F : Type 0} (print : F → Text) where
  unfoldable pub print_more : List F → Text → Text
  print_more [] rest = rest
  print_more (f ∷ fs) rest = b',' ∷ print f ++ print_more fs rest

  unfoldable pub print_fields : List F → Text → Text
  unfolding print_more
  print_fields [] rest = rest
  print_fields (f ∷ fs) rest = print f ++ print_more fs rest

unfoldable pub print_line_field : LineField → Text
unfolding print_fields print_hd_field print_price action_letter side_letter
print_line_field (LineField.hd fs) =
    print_key "hd" (b'{' ∷ print_fields print_hd_field fs (b'}' ∷ []))
print_line_field (LineField.ts_recv t) = print_key "ts_recv" (in_quotes (print_moment t))
print_line_field (LineField.action a) = print_key "action" (in_quotes (action_letter a ∷ []))
print_line_field (LineField.side s) = print_key "side" (in_quotes (side_letter s ∷ []))
print_line_field (LineField.price k z) = print_key "price" (in_quotes (print_price k z))
print_line_field LineField.null_price = print_key "price" (codes "null")
print_line_field (LineField.ts_in_delta k z) = print_key "ts_in_delta" (print_int (suc k) z)
print_line_field (LineField.size n) = print_key "size" (print_number n)
print_line_field (LineField.flags n) = print_key "flags" (print_number n)
print_line_field (LineField.channel_id n) = print_key "channel_id" (print_number n)
print_line_field (LineField.sequence n) = print_key "sequence" (print_number n)
print_line_field (LineField.order_id n) = print_key "order_id" (in_quotes (print_number n))
print_line_field (LineField.symbol s) = print_key "symbol" (in_quotes s)

abbrev pub IsLineField : LineField → Type 0
IsLineField (LineField.hd fs) = All IsHdField fs
IsLineField (LineField.ts_recv t) = IsMoment t
IsLineField (LineField.action a) = IsNamedAction a
IsLineField (LineField.side s) = Unit
IsLineField (LineField.price k z) =
    ((pos_part z + neg_part z) / 10 ^ 9 < 10 ^ k) × (pos_part z + neg_part z < 2 ^ 63)
IsLineField LineField.null_price = Unit
IsLineField (LineField.ts_in_delta k z) =
    (pos_part z + neg_part z < 2 ^ 31) × (pos_part z + neg_part z < 10 ^ suc k)
IsLineField (LineField.size n) = IsBelow (2 ^ 32) n
IsLineField (LineField.flags n) = IsBelow (2 ^ 8) n
IsLineField (LineField.channel_id n) = IsBelow (2 ^ 16) n
IsLineField (LineField.sequence n) = IsBelow (2 ^ 32) n
IsLineField (LineField.order_id n) = IsBelow (2 ^ 64) n
IsLineField (LineField.symbol s) = All (λ c. not_quote c ≡ true) s

module _ {F : Type 0} (set : MarketDataEvent → F → MarketDataEvent) where
  abbrev pub set_all : MarketDataEvent → List F → MarketDataEvent
  set_all e [] = e
  set_all e (f ∷ fs) = set_all (set e f) fs

unfoldable pub set_line_field : MarketDataEvent → LineField → MarketDataEvent
unfolding set_hd_field
set_line_field e (LineField.hd fs) = set_all set_hd_field e fs
set_line_field e (LineField.ts_recv t) = record e { ts_recv = pos (instant t) }
set_line_field e (LineField.action a) = record e { action = a }
set_line_field e (LineField.side s) = record e { side = s }
set_line_field e (LineField.price k z) = record e { price = z }
set_line_field e LineField.null_price = e
set_line_field e (LineField.ts_in_delta k z) = record e { ts_in_delta = z }
set_line_field e (LineField.size n) = record e { size = n.value }
set_line_field e (LineField.flags n) = record e { flags = n.value }
set_line_field e (LineField.channel_id n) = record e { channel_id = n.value }
set_line_field e (LineField.sequence n) = record e { sequence = n.value }
set_line_field e (LineField.order_id n) = record e { order_id = n.value }
set_line_field e (LineField.symbol s) = e
