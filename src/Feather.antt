-- ===== src/Feather.antt =====
-- src/ingestion/FeatherDataParser.cpp, over what Apache Arrow gives it: whether the file opens and its
-- table can be read, and the batches of the table with their columns, which are found by name. A
-- `double` and what the code does with it are parameters.
pub mod RoundTrip
use back_tester.Prelude.{
  ℕ, zero, suc, ◌+◌, ◌-◌, ◌^◌, ◌%◌, Bool, true, false, not, Option, none, some, List, [], ◌∷◌, ◌++◌,
  ◌⊎◌, inl, inr, ℤ, pos, negsuc, if◌then◌else◌,
}
use back_tester.Event.{MarketDataEvent, default_event}
use back_tester.JsonNative.Scan.{Text}
use back_tester.JsonNative.Fields.{rtype_of, action_of, side_of}
use back_tester.JsonNative.File.{ends_with}
use back_tester.JsonNative.Print.{codes}
use back_tester.JsonSimple.Line.{to_int32}

-- `std::isnan(x)`, `static_cast<int64_t>(std::round(x * 1e9))` and `static_cast<uint64_t>(x)`.
pub record Doubles : Type 1 where
  pub Double : Type 0
  pub isnan : Double → Bool
  pub to_nanos : Double → ℤ
  pub to_uint64 : Double → ℕ

-- An Arrow array: `IsNull` and `Value` or `GetString`.
pub record Array (A : Type 0) : Type 0 where
  pub is_null : ℕ → Bool
  pub value : ℕ → A

-- `static_cast` of an `int64_t` to an unsigned type of `w` bits.
unfoldable pub to_unsigned : ℕ → ℤ → ℕ
to_unsigned w (pos n) = n % 2 ^ w
to_unsigned w (negsuc n) = 2 ^ w - 1 - n % 2 ^ w

pub data FeatherError : Type 0 where
  unsupported_format cannot_open cannot_read_file cannot_read_table : FeatherError

-- A value that is there is stored.
abbrev pub stored :
    {A : Type 0}
    → Array A
    → ℕ
    → (A → MarketDataEvent → MarketDataEvent)
    → MarketDataEvent
    → MarketDataEvent
stored col row store e = if col.is_null row then e else store (col.value row) e

-- The first character of a text that has one.
abbrev pub with_first :
    (ℕ → MarketDataEvent → MarketDataEvent) → Text → MarketDataEvent → MarketDataEvent
with_first store [] e = e
with_first store (c ∷ s) e = store c e

module _ (d : Doubles) where
  open d use {Double, isnan, to_nanos, to_uint64}

  -- `arrow::RecordBatch` with its columns, cast to the types of their arrays.
  pub record Batch : Type 0 where
    pub num_rows : ℕ
    pub ts_recv : Array ℤ
    pub ts_event : Array ℤ
    pub rtype : Array ℤ
    pub publisher_id : Array ℤ
    pub instrument_id : Array ℤ
    pub action : Array Text
    pub side : Array Text
    pub price : Array Double
    pub size : Array ℤ
    pub channel_id : Array ℤ
    pub order_id : Array Double
    pub flags : Array ℤ
    pub ts_in_delta : Array ℤ
    pub sequence : Array ℤ

  -- What `parse_inner` gets of the file. `batches` is what the calls of `ReadNext` give, `none` for an
  -- error or the end.
  pub record FeatherFile : Type 0 where
    pub opens : Bool
    pub reader_opens : Bool
    pub reads_table : Bool
    pub batches : List (Option Batch)

  -- The first half of the row, to the side.
  unfoldable pub head_fields : Batch → ℕ → MarketDataEvent → MarketDataEvent
  head_fields b row e0 =
      let e1 = stored b.ts_recv row (λ v e. record e { ts_recv = v }) e0 in
      let e2 = stored b.ts_event row (λ v e. record e { ts_event = v }) e1 in
      let e3 = stored b.rtype row (λ v e. record e { rtype = rtype_of (to_unsigned 8 v) }) e2 in
      let e4 = stored b.publisher_id row (λ v e. record e { publisher_id = to_unsigned 32 v }) e3 in
      let e5 =
        stored b.instrument_id row (λ v e. record e { instrument_id = to_unsigned 32 v }) e4 in
      let e6 = stored b.action row (with_first (λ c e. record e { action = action_of c })) e5 in
      stored b.side row (with_first (λ c e. record e { side = side_of c })) e6

  unfoldable pub tail_fields : Batch → ℕ → MarketDataEvent → MarketDataEvent
  tail_fields b row e7 =
      let e8 =
        stored b.price row (λ v e. if isnan v then e else record e { price = to_nanos v }) e7 in
      let e9 = stored b.size row (λ v e. record e { size = to_unsigned 32 v }) e8 in
      let e10 = stored b.channel_id row (λ v e. record e { channel_id = to_unsigned 16 v }) e9 in
      let e11 = stored b.order_id row (λ v e. record e { order_id = to_uint64 v }) e10 in
      let e12 = stored b.flags row (λ v e. record e { flags = to_unsigned 8 v }) e11 in
      let e13 = stored b.ts_in_delta row (λ v e. record e { ts_in_delta = to_int32 v }) e12 in
      stored b.sequence row (λ v e. record e { sequence = to_unsigned 32 v }) e13

  unfoldable pub row_event : Batch → ℕ → MarketDataEvent
  unfolding head_fields tail_fields
  row_event b row = tail_fields b row (head_fields b row default_event)

  -- The loop over the rows, with the turns left.
  unfoldable pub rows_from : ℕ → ℕ → Batch → List MarketDataEvent
  unfolding row_event
  rows_from zero row b = []
  rows_from (suc n) row b = row_event b row ∷ rows_from n (suc row) b

  -- `while (reader.ReadNext(&batch).ok() && batch)`
  unfoldable pub parse_batches : List (Option Batch) → List MarketDataEvent
  unfolding rows_from
  parse_batches [] = []
  parse_batches (none ∷ batches) = []
  parse_batches (some b ∷ batches) = rows_from b.num_rows 0 b ++ parse_batches batches

  -- The events that go to the callback, or what is thrown.
  unfoldable pub parse_inner : Text → FeatherFile → FeatherError ⊎ List MarketDataEvent
  unfolding parse_batches ends_with
  parse_inner path file =
      if not (ends_with path (codes ".mbo.json.feather"))
      then inl FeatherError.unsupported_format
      else (if not file.opens
          then inl FeatherError.cannot_open
          else (if not file.reader_opens
              then inl FeatherError.cannot_read_file
              else (if not file.reads_table
                  then inl FeatherError.cannot_read_table
                  else inr (parse_batches file.batches))))
