-- ===== src/Types.antt =====
-- src/types.rs: ids, orders and owned price levels. Texts are their bytes.
pub mod Ids
pub mod Level
pub mod Builder
mod Tests
use order_book.Prelude.{
  ℕ, ◌+◌, List, [], ◌∷◌, ◌++◌, Option, none, some, Bool, true, false, Eq, text_eq, Text, Result, ok,
  err, if◌then◌else◌, map, zero, suc, ◌/◌, ◌%◌, ltb,
}
use order_book.Side.{Side, ask, bid}
use order_book.Instrument.{Price, Qty, sum_qty}
use order_book.Allocation.{Maker}

abbrev pub ExchangeId : Type 0
ExchangeId = Text

abbrev pub ClientId : Type 0
ClientId = Text

-- The decimal digits of a number, as `format!` writes them; `fuel` is at least their number.
unfoldable pub decimal : ℕ → ℕ → Text
decimal zero n = []
decimal (suc fuel) n =
    let higher = decimal fuel (n / 10) in
    if ltb n 10 then (48 + n) ∷ [] else higher ++ (48 + n % 10) ∷ []

-- `format!("exchId-{}", seq)`; a u64 has at most twenty digits.
unfoldable pub from_sequence : ℕ → ExchangeId
from_sequence seq = b'e' ∷ b'x' ∷ b'c' ∷ b'h' ∷ b'I' ∷ b'd' ∷ b'-' ∷ decimal 20 seq

pub data TimeInForce : Type 0 where
  gtc ioc fok : TimeInForce

pub data OrderType : Type 0 where
  limit : Price → TimeInForce → OrderType
  market : OrderType
  stop_market : Price → OrderType
  stop_limit : Price → Price → TimeInForce → OrderType

abbrev pub limit_gtc : Price → OrderType
limit_gtc price = limit price gtc

abbrev pub limit_ioc : Price → OrderType
limit_ioc price = limit price ioc

abbrev pub limit_fok : Price → OrderType
limit_fok price = limit price fok

abbrev pub stop_limit_gtc : Price → Price → OrderType
stop_limit_gtc trigger price = stop_limit trigger price gtc

-- The price that the order rests at, now or after it is triggered.
unfoldable pub limit_price : OrderType → Option Price
limit_price (limit price tif) = some price
limit_price market = none
limit_price (stop_market trigger) = none
limit_price (stop_limit trigger price tif) = some price

-- Every price that the order carries; the array's `None`s are left out, as its callers do.
unfoldable pub prices : OrderType → List Price
prices (limit price tif) = price ∷ []
prices market = []
prices (stop_market trigger) = trigger ∷ []
prices (stop_limit trigger price tif) = trigger ∷ price ∷ []

pub data OrderLifecycle : Type 0 where
  new partially_filled filled cancelled : OrderLifecycle

pub record Order : Type 0 where
  pub exchange_id : ExchangeId
  pub client_id : ClientId
  pub order_type : OrderType
  pub side : Side
  pub original_quantity : Qty
  pub remaining_quantity : Qty
  pub timestamp : ℕ
  pub arrival : ℕ
  pub lifecycle : OrderLifecycle

pub record OrderBuilder : Type 0 where
  pub exchange_id : Option ExchangeId
  pub client_id : Option ClientId
  pub order_type : Option OrderType
  pub side : Option Side
  pub original_quantity : Option Qty
  pub remaining_quantity : Option Qty
  pub timestamp : Option ℕ
  pub arrival : Option ℕ
  pub lifecycle : Option OrderLifecycle

-- `OrderBuilder::default()`, with the clock's reading as an argument.
unfoldable pub default_builder : ℕ → OrderBuilder
default_builder timestamp_ns = record {
  exchange_id = none;
  client_id = none;
  order_type = none;
  side = none;
  original_quantity = none;
  remaining_quantity = none;
  timestamp = some timestamp_ns;
  arrival = some 0;
  lifecycle = some new;
}

-- `unwrap_or`
abbrev pub unwrap_or {ℓ} : {A : Type ℓ} → Option A → A → A
unwrap_or none d = d
unwrap_or (some a) d = a

infixl 5 ◌>>=◌
abbrev pub ◌>>=◌ {ℓ κ} : {A : Type ℓ} {B : Type κ} → Option A → (A → Option B) → Option B
none >>= f = none
some a >>= f = f a

-- `build`; `none` is a failed `expect`.
unfoldable pub build : OrderBuilder → Option Order
build b = do
  original_quantity ← b.original_quantity
  exchange_id ← b.exchange_id
  client_id ← b.client_id
  lifecycle ← b.lifecycle
  timestamp ← b.timestamp
  arrival ← b.arrival
  side ← b.side
  order_type ← b.order_type
  some (record {
    exchange_id = exchange_id;
    client_id = client_id;
    order_type = order_type;
    side = side;
    original_quantity = unwrap_or b.original_quantity original_quantity;
    remaining_quantity = unwrap_or b.remaining_quantity original_quantity;
    timestamp = timestamp;
    arrival = arrival;
    lifecycle = lifecycle;
  })

-- An order as an allocator sees it.
abbrev pub to_maker : Order → Maker
to_maker o = record { remaining_quantity = o.remaining_quantity; arrival = o.arrival }

pub record PriceLevel : Type 0 where
  pub price : Price
  pub side : Side
  pub orders : List Order

pub data OrderError : Type 0 where
  invalid_side duplicate_exchange_id : OrderError
