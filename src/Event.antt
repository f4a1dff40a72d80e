-- ===== src/Event.antt =====
-- src/common/BasicTypes.hpp and src/common/MarketDataEvent.hpp: the event that flows through the
-- whole program. A `NanoTime` and a `ScaledPrice` (both `int64_t`) are integers; unsigned fields
-- are numbers.
pub mod Flags
use back_tester.Prelude.{ℕ, ◌-◌, ◌^◌, ◌%◌, Bool, not, ℤ, pos, ◌==ℤ◌, ltb_ℤ, ◌&&◌}

-- `enum class Side`
pub data Side : Type 0 where
  none buy sell : Side

-- The tests `side == Side::Buy`, `side == Side::Sell` and `side == Side::None`.
abbrev pub is_buy : Side → Bool
is_buy Side.buy = Bool.true
is_buy _ = Bool.false

abbrev pub is_sell : Side → Bool
is_sell Side.sell = Bool.true
is_sell _ = Bool.false

abbrev pub is_none : Side → Bool
is_none Side.none = Bool.true
is_none _ = Bool.false

-- `enum class Action : char`. A parser casts any character to it: `other c` is a value that no
-- enumerator names.
pub data Action : Type 0 where
  add modify cancel clear trade fill none : Action
  other : ℕ → Action

-- `enum class RType : uint8_t`, with `other` for a byte that no enumerator names.
pub data RType : Type 0 where
  mbp0 mbp1 mbp10 status definition imbalance error symbol_mapping system statistics : RType
  ohlcv1s ohlcv1m ohlcv1h ohlcv1d mbo cmbp1 cbbo1s cbbo1m tcbbo bbo1s bbo1m : RType
  other : ℕ → RType

-- `UNDEF_PRICE`, the largest `int64_t`.
abbrev pub undef_price : ℤ
undef_price = pos (2 ^ 63 - 1)

pub record MarketDataEvent : Type 0 where
  pub ts_recv : ℤ
  pub ts_event : ℤ
  pub order_id : ℕ
  pub price : ℤ
  pub instrument_id : ℕ
  pub publisher_id : ℕ
  pub sequence : ℕ
  pub size : ℕ
  pub ts_in_delta : ℤ
  pub channel_id : ℕ
  pub side : Side
  pub rtype : RType
  pub flags : ℕ
  pub action : Action

-- `MarketDataEvent{}`
abbrev pub default_event : MarketDataEvent
default_event = record {
  ts_recv = pos 0;
  ts_event = pos 0;
  order_id = 0;
  price = undef_price;
  instrument_id = 0;
  publisher_id = 0;
  sequence = 0;
  size = 0;
  ts_in_delta = pos 0;
  channel_id = 0;
  side = Side.none;
  rtype = RType.mbp0;
  flags = 0;
  action = Action.none;
}

unfoldable pub is_price_defined : MarketDataEvent → Bool
is_price_defined e = not (e.price ==ℤ undef_price)

-- `operator<=>` orders events by `ts_recv`; this is its `<`.
unfoldable pub event_before : MarketDataEvent → MarketDataEvent → Bool
event_before a b = ltb_ℤ a.ts_recv b.ts_recv

-- Does an order on this side at this price rest at price `p` of the side `s`?
abbrev pub hits : Bool → ℤ → Side → ℤ → Bool
hits Bool.true p side price = is_buy side && price ==ℤ p
hits Bool.false p side price = not (is_buy side) && price ==ℤ p

-- An `int64_t` quantity read as `uint64_t`.
abbrev pub to_u64 : ℤ → ℕ
to_u64 (ℤ.pos n) = n % 2 ^ 64
to_u64 (ℤ.negsuc n) = 2 ^ 64 - 1 - n % 2 ^ 64
