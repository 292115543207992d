-- ===== src/Matching.antt =====
-- src/matching.rs: what one order does to the book. `execute` and `submit` keep the book when they
-- fail, so they return it beside their result; a `Fault` is a panic, or a loop without fuel.
pub mod Sweep
pub mod Engine
pub mod Trades
pub mod Fillable
pub mod FillOrKill
pub mod Halts
pub mod Priority
pub mod Safe
pub mod Full
pub mod Sound
pub mod Stops
pub mod Execute
pub mod Activate
pub mod Cascade
mod Tests
use order_book.Prelude.{ℕ, List, Option, some, none, Bool, true, false, leb, Result, ok, err}
use order_book.Side.{Side, ask, bid}
use order_book.Instrument.{Price, Qty}
use order_book.Types.{
  ExchangeId, ClientId, Order, OrderType, limit, market, stop_market, stop_limit,
}

pub record Trade : Type 0 where
  pub price : Price
  pub quantity : Qty
  pub maker_order_id : ExchangeId
  pub taker_order_id : ExchangeId
  pub maker_client : ClientId
  pub taker_client : ClientId
  pub taker_side : Side
  pub timestamp : ℕ

pub data SubmitOutcome : Type 0 where
  rested partially_filled_and_rested filled killed stop_pending : SubmitOutcome

-- A report whose `triggered` is empty, as `execute` returns it.
pub record Execution : Type 0 where
  pub order_id : ExchangeId
  pub trades : List Trade
  pub outcome : SubmitOutcome
  pub cancelled : List ExchangeId

-- The report of `submit`; the reports of the activated stops have nothing triggered of their own.
pub record ExecutionReport : Type 0 where
  pub execution : Execution
  pub triggered : List Execution

pub record MatchingResult : Type 0 where
  pub trades : List Trade
  pub cancelled : List ExchangeId
  pub outcome : SubmitOutcome

pub record SweepContext : Type 0 where
  pub now : ℕ
  pub lot : ℕ

abbrev pub activated_type : OrderType → OrderType
activated_type (limit price tif) = limit price tif
activated_type market = market
activated_type (stop_market trigger) = market
activated_type (stop_limit trigger price tif) = limit price tif

-- What a triggered stop becomes.
unfoldable pub activate : Order → Order
activate order = record order { order_type = activated_type order.order_type }

-- Whether a level of the opposite side is within the taker's limit.
unfoldable pub within_limit : Side → Price → Price → Bool
within_limit bid level_price bound = leb level_price bound
within_limit ask level_price bound = leb bound level_price

unfoldable pub within : Side → Price → Option Price → Bool
within side level_price none = true
within side level_price (some bound) = within_limit side level_price bound

-- `last >= trigger` for a buy stop, `last <= trigger` for a sell stop, false before the first trade.
unfoldable pub already_triggered : Option Price → Side → Price → Bool
already_triggered none side trigger = false
already_triggered (some last) bid trigger = leb trigger last
already_triggered (some last) ask trigger = leb last trigger
