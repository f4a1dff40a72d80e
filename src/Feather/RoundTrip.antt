-- ===== src/Feather/RoundTrip.antt =====
-- A table whose columns hold the fields of events is parsed by src/ingestion/FeatherDataParser.cpp to
-- these events.
use back_tester.Prelude.{
  ℕ, zero, suc, ◌+◌, ◌^◌, ◌<◌, ◌≤◌, ◌≡◌, refl, sym, ap, ap₂, ◌∙◌, Bool, true, false, Bool-cases,
  inl, inr, Option, none, some, List, [], ◌∷◌, ◌++◌, length, get_or, All, ℤ, pos, negsuc, ◌==ℤ◌,
  ==ℤ_iff, arith,
}
use back_tester.Event.{MarketDataEvent, RType, default_event, undef_price}
use back_tester.JsonNative.Scan.{Text}
use back_tester.JsonNative.Numbers.{signed32}
use back_tester.JsonNative.Numbers.RoundTrip.{IsInt32}
use back_tester.JsonNative.File.{ends_with}
use back_tester.JsonNative.Print.{
  codes, rtype_code, action_letter, side_letter, IsNamedRType, IsNamedAction,
}
use back_tester.JsonNative.Print.Hd.{rtype_of-code}
use back_tester.JsonNative.Print.Line.{action_of-letter, side_of-letter}
use back_tester.JsonSimple.Line.{to_int32}
use back_tester.Feather.{
  Doubles, Array, Batch, to_unsigned, row_event, rows_from, parse_batches, parse_inner,
}

-- A column with nothing missing.
abbrev pub column : {A : Type 0} → (MarketDataEvent → A) → List MarketDataEvent → Array A
column f es = record { is_null = λ row. false; value = λ row. f (get_or es row default_event) }

abbrev pub is_undefined : MarketDataEvent → Bool
is_undefined e = e.price ==ℤ undef_price

to_unsigned-pos : (w n : ℕ) → n < 2 ^ w → to_unsigned w (pos n) ≡ n
unfolding to_unsigned
to_unsigned-pos w n h = grind arith

to_int32-id : (z : ℤ) → IsInt32 z → to_int32 z ≡ z
unfolding to_int32 signed32
to_int32-id (pos n) h = ground arith
to_int32-id (negsuc n) h = ground arith

rtype_code-lt : (r : RType) → IsNamedRType r → rtype_code r < 2 ^ 8
unfolding rtype_code
rtype_code-lt (RType.other c) h = absurd h
rtype_code-lt r h = omega arith

module _ (d : Doubles) (of_price : ℤ → d.Double) (of_id : ℕ → d.Double) where
  open d use {Double, isnan, to_nanos, to_uint64}

  -- The events as a batch; an undefined price is a missing one.
  abbrev pub batch_of : List MarketDataEvent → Batch d
  batch_of es = record {
    num_rows = length es;
    ts_recv = column (λ e. e.ts_recv) es;
    ts_event = column (λ e. e.ts_event) es;
    rtype = column (λ e. pos (rtype_code e.rtype)) es;
    publisher_id = column (λ e. pos e.publisher_id) es;
    instrument_id = column (λ e. pos e.instrument_id) es;
    action = column (λ e. action_letter e.action ∷ []) es;
    side = column (λ e. side_letter e.side ∷ []) es;
    price = record {
      is_null = λ row. is_undefined (get_or es row default_event);
      value = λ row. of_price (get_or es row default_event).price;
    };
    size = column (λ e. pos e.size) es;
    channel_id = column (λ e. pos e.channel_id) es;
    order_id = column (λ e. of_id e.order_id) es;
    flags = column (λ e. pos e.flags) es;
    ts_in_delta = column (λ e. e.ts_in_delta) es;
    sequence = column (λ e. pos e.sequence) es;
  }

  -- The fields fit their types, the enumerators are named, and the price and the order id are such
  -- that a `double` holds them.
  pub record IsWritable (e : MarketDataEvent) : Type 0 where
    pub rtype_named : IsNamedRType e.rtype
    pub action_named : IsNamedAction e.action
    pub publisher_id_fits : e.publisher_id < 2 ^ 32
    pub instrument_id_fits : e.instrument_id < 2 ^ 32
    pub size_fits : e.size < 2 ^ 32
    pub sequence_fits : e.sequence < 2 ^ 32
    pub channel_id_fits : e.channel_id < 2 ^ 16
    pub flags_fit : e.flags < 2 ^ 8
    pub ts_in_delta_fits : IsInt32 e.ts_in_delta
    pub price_is_number : isnan (of_price e.price) ≡ false
    pub price_exact : to_nanos (of_price e.price) ≡ e.price
    pub order_id_exact : to_uint64 (of_id e.order_id) ≡ e.order_id

  row_event-batch_of :
      (es : List MarketDataEvent) (row : ℕ)
      → IsWritable (get_or es row default_event)
      → row_event d (batch_of es) row ≡ get_or es row default_event
  unfolding row_event
  row_event-batch_of es row w =
      let e = get_or es row default_event in
      let publisher = to_unsigned-pos 32 e.publisher_id w.publisher_id_fits in
      let instrument = to_unsigned-pos 32 e.instrument_id w.instrument_id_fits in
      let size = to_unsigned-pos 32 e.size w.size_fits in
      let sequence = to_unsigned-pos 32 e.sequence w.sequence_fits in
      let channel = to_unsigned-pos 16 e.channel_id w.channel_id_fits in
      let flags = to_unsigned-pos 8 e.flags w.flags_fit in
      let code = to_unsigned-pos 8 (rtype_code e.rtype) (rtype_code-lt e.rtype w.rtype_named) in
      let rtype = rtype_of-code e.rtype w.rtype_named in
      let action = action_of-letter e.action w.action_named in
      let side = side_of-letter e.side in
      let delta = to_int32-id e.ts_in_delta w.ts_in_delta_fits in
      let order = w.order_id_exact in
      elim (Bool-cases (is_undefined e)) [
        | inl missing ↦
            let price = (==ℤ_iff e.price undef_price).0 missing in
            rw missing (
              rw (publisher, instrument, size, sequence, channel, flags, code, rtype, action, side)
                (rw (delta, order) (ap (λ p. record e { price = p }) (sym price))))
        | inr there ↦
            rw (there, w.price_is_number)
              (rw (publisher, instrument, size, sequence, channel, flags, code, rtype, action, side)
                (rw (delta, order, w.price_exact) refl))
      ]

  abbrev rows : ℕ → ℕ → List MarketDataEvent → List MarketDataEvent
  rows zero row es = []
  rows (suc n) row es = get_or es row default_event ∷ rows n (suc row) es

  rows-shift :
      (n row : ℕ) (e : MarketDataEvent) (es : List MarketDataEvent)
      → rows n (suc row) (e ∷ es) ≡ rows n row es
  rows-shift zero row e es = refl
  rows-shift (suc n) row e es =
      ap (λ r. get_or es row default_event ∷ r) (rows-shift n (suc row) e es)

  rows_all : (es : List MarketDataEvent) → rows (length es) 0 es ≡ es
  rows_all [] = refl
  rows_all (e ∷ es) = ap (λ r. e ∷ r) (rows-shift (length es) 0 e es ∙ rows_all es)

  All-get_or :
      (es : List MarketDataEvent) (row : ℕ)
      → All IsWritable es
      → row < length es
      → IsWritable (get_or es row default_event)
  All-get_or [] row a h = absurd (omega arith)
  All-get_or (e ∷ es) zero a h = a.0
  All-get_or (e ∷ es) (suc row) a h = All-get_or es row a.1 (omega arith)

  rows_from-batch_of :
      (n row : ℕ) (es : List MarketDataEvent)
      → All IsWritable es
      → row + n ≤ length es
      → rows_from d n row (batch_of es) ≡ rows n row es
  unfolding rows_from
  rows_from-batch_of zero row es a h = refl
  rows_from-batch_of (suc n) row es a h =
      ap₂ (λ x y. x ∷ y) (row_event-batch_of es row (All-get_or es row a (omega arith)))
        (rows_from-batch_of n (suc row) es a (omega arith))

  abbrev pub concat : List (List MarketDataEvent) → List MarketDataEvent
  concat [] = []
  concat (es ∷ rest) = es ++ concat rest

  abbrev pub batches_of : List (List MarketDataEvent) → List (Option (Batch d))
  batches_of [] = []
  batches_of (es ∷ rest) = some (batch_of es) ∷ batches_of rest

  -- What `ReadNext` gives after an error is not read.
  parse_batches-batches_of :
      (ess : List (List MarketDataEvent)) (later : List (Option (Batch d)))
      → All (All IsWritable) ess
      → parse_batches d (batches_of ess ++ none ∷ later) ≡ concat ess
  unfolding parse_batches
  parse_batches-batches_of [] later a = refl
  parse_batches-batches_of (es ∷ ess) later a =
      ap₂ (λ x y. x ++ y) (rows_from-batch_of (length es) 0 es a.0 (omega arith) ∙ rows_all es)
        (parse_batches-batches_of ess later a.1)

  -- A file of the right name that opens, and whose table comes in batches with the fields of events in
  -- its columns, is parsed to these events in order, if the fields fit their types, the enumerators
  -- are named, and a `double` holds each price and each order id exactly; batches after an error of
  -- `ReadNext` are not read.
  pub parse_inner-batches_of :
      (path : Text) (ess : List (List MarketDataEvent)) (later : List (Option (Batch d)))
      → ends_with path (codes ".mbo.json.feather") ≡ true
      → All (All IsWritable) ess
      → parse_inner d path (record {
        opens = true;
        reader_opens = true;
        reads_table = true;
        batches = batches_of ess ++ none ∷ later;
      })
        ≡ inr (concat ess)
  unfolding parse_inner
  parse_inner-batches_of path ess later named a =
      rw named (ap inr (parse_batches-batches_of ess later a))
