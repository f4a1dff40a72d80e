-- ===== src/JsonSimple/Line.antt =====
-- `parseLine` and `parse_inner` of src/ingestion/JsonSimpleDataParser.cpp.
use back_tester.Prelude.{
  ℕ, ◌-◌, ◌^◌, ◌%◌, not, ◌==◌, List, [], ◌∷◌, Option, none, some, ◌⊎◌, inl, inr, ℤ, pos, negsuc,
  ◌+ℤ◌, if◌then◌else◌,
}
use back_tester.Event.{MarketDataEvent, default_event}
use back_tester.JsonNative.Scan.{Text}
use back_tester.JsonNative.Numbers.{scale, int64, signed32}
use back_tester.JsonNative.Timestamp.{short_fraction}
use back_tester.JsonNative.Fields.{rtype_of, action_of, side_of}
use back_tester.JsonNative.File.{FileError, ends_with, mbo_json}
use back_tester.JsonNative.Print.{codes}
use back_tester.JsonSimple.{Library, get_string, get_numeric_raw, get_object, is_null}

infixl 5 ◌>>=◌
abbrev ◌>>=◌ {ℓ κ} : {A : Type ℓ} {B : Type κ} → Option A → (A → Option B) → Option B
none >>= f = none
some a >>= f = f a

-- `static_cast<int32_t>` of a `long`.
unfoldable pub to_int32 : ℤ → ℤ
to_int32 (pos n) = signed32 (n % 2 ^ 32)
to_int32 (negsuc n) = signed32 (2 ^ 32 - 1 - n % 2 ^ 32)

-- An optional value: stored by `store` if it is there.
abbrev pub optional :
    Option Text → (Text → Option MarketDataEvent) → MarketDataEvent → Option MarketDataEvent
optional none store e = some e
optional (some s) store e = store s

abbrev pub first_char : (ℕ → MarketDataEvent) → MarketDataEvent → Text → Option MarketDataEvent
first_char store e [] = some e
first_char store e (c ∷ s) = some (store c)

module _ (lib : Library) where
  abbrev pub nanos_after : Text → ℤ
  nanos_after [] = pos 0
  nanos_after (c ∷ p) = if c == b'.' then pos (short_fraction 9 0 p) else pos 0

  -- `parseIso8601Nanos`
  unfoldable pub parse_time : Text → Option ℤ
  unfolding int64
  parse_time s = do
    parsed ← lib.strptime_timegm s
    some (int64 (scale 1000000000 parsed.0 +ℤ nanos_after parsed.1))

  abbrev pub number : (ℕ → MarketDataEvent) → Text → Option MarketDataEvent
  number store s = do v ← lib.stoul s; some (store v)

  abbrev pub time : (ℤ → MarketDataEvent) → Text → Option MarketDataEvent
  time store s = do t ← parse_time s; some (store t)

  -- The fields of the object hd.
  unfoldable pub parse_hd_fields : Text → MarketDataEvent → Option MarketDataEvent
  parse_hd_fields hd e0 = do
    e1 ← optional (get_string hd (codes "ts_event")) (time (λ t. record e0 { ts_event = t })) e0
    e2 ←
        optional (get_numeric_raw hd (codes "rtype"))
          (number (λ v. record e1 { rtype = rtype_of v })) e1
    e3 ←
        optional (get_numeric_raw hd (codes "publisher_id"))
          (number (λ v. record e2 { publisher_id = v % 2 ^ 32 })) e2
    optional (get_numeric_raw hd (codes "instrument_id"))
        (number (λ v. record e3 { instrument_id = v % 2 ^ 32 })) e3

  unfoldable pub price_field : Text → MarketDataEvent → Option MarketDataEvent
  price_field line e =
      if is_null line (codes "price")
      then some e
      else optional (get_string line (codes "price"))
          (λ s. do p ← lib.stod_nanos s; some (record e { price = p })) e

  -- The fields of the line, in the order in which `parseLine` looks for them.
  unfoldable pub parse_fields : Text → MarketDataEvent → Option MarketDataEvent
  unfolding price_field
  parse_fields line e0 = do
    e1 ←
        optional (get_string line (codes "action"))
          (first_char (λ c. record e0 { action = action_of c }) e0) e0
    e2 ←
        optional (get_string line (codes "side"))
          (first_char (λ c. record e1 { side = side_of c }) e1) e1
    e3 ← price_field line e2
    e4 ←
        optional (get_numeric_raw line (codes "size"))
          (number (λ v. record e3 { size = v % 2 ^ 32 })) e3
    e5 ←
        optional (get_numeric_raw line (codes "channel_id"))
          (number (λ v. record e4 { channel_id = v % 2 ^ 16 })) e4
    e6 ←
        optional (get_string line (codes "order_id"))
          (λ s. do v ← lib.stoull s; some (record e5 { order_id = v })) e5
    e7 ←
        optional (get_numeric_raw line (codes "flags"))
          (number (λ v. record e6 { flags = v % 2 ^ 8 })) e6
    e8 ←
        optional (get_numeric_raw line (codes "ts_in_delta"))
          (λ s. do v ← lib.stol s; some (record e7 { ts_in_delta = to_int32 v })) e7
    optional (get_numeric_raw line (codes "sequence"))
        (number (λ v. record e8 { sequence = v % 2 ^ 32 })) e8

  -- `parseLine`
  unfoldable pub parse_line : Text → Option MarketDataEvent
  unfolding parse_hd_fields parse_fields
  parse_line line = do
    s ← get_string line (codes "ts_recv")
    t ← parse_time s
    e ← parse_hd_fields (get_object line (codes "hd")) (record default_event { ts_recv = t })
    parse_fields line e

  abbrev pub keep : Option MarketDataEvent → List MarketDataEvent → List MarketDataEvent
  keep none later = later
  keep (some e) later = e ∷ later

  -- The loop of `parse_inner` over the lines of the file: the events that the callback gets.
  unfoldable pub parse_lines : List Text → List MarketDataEvent
  parse_lines [] = []
  parse_lines ([] ∷ lines) = parse_lines lines
  parse_lines ((c ∷ line) ∷ lines) = keep (parse_line (c ∷ line)) (parse_lines lines)

  -- `parse_inner`, given the lines that `getline` reads where the stream opens.
  unfoldable pub parse_inner : Text → Option (List Text) → FileError ⊎ List MarketDataEvent
  unfolding parse_lines
  parse_inner path file =
      if not (ends_with path mbo_json)
      then inl FileError.unsupported_format
      else elim file [ none ↦ inl FileError.cannot_open | some lines ↦ inr (parse_lines lines) ]
