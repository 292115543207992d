-- ===== src/Types/Builder.antt =====
-- The setters of `OrderBuilder` in src/types.rs.
use order_book.Prelude.{some, ℕ}
use order_book.Side.{Side}
use order_book.Instrument.{Qty}
use order_book.Types.{ExchangeId, ClientId, OrderType, OrderLifecycle, OrderBuilder}

unfoldable pub timestamp : OrderBuilder → ℕ → OrderBuilder
timestamp b timestamp_ns = record b { timestamp = some timestamp_ns }

unfoldable pub arrival : OrderBuilder → ℕ → OrderBuilder
arrival b stamp = record b { arrival = some stamp }

unfoldable pub exchange_id : OrderBuilder → ExchangeId → OrderBuilder
exchange_id b id = record b { exchange_id = some id }

unfoldable pub client_id : OrderBuilder → ClientId → OrderBuilder
client_id b id = record b { client_id = some id }

unfoldable pub order_type : OrderBuilder → OrderType → OrderBuilder
order_type b t = record b { order_type = some t }

unfoldable pub side : OrderBuilder → Side → OrderBuilder
side b s = record b { side = some s }

unfoldable pub quantity : OrderBuilder → Qty → OrderBuilder
quantity b q = record b { original_quantity = some q }

unfoldable pub remaining_quantity : OrderBuilder → Qty → OrderBuilder
remaining_quantity b q = record b { remaining_quantity = some q }

unfoldable pub lifecycle : OrderBuilder → OrderLifecycle → OrderBuilder
lifecycle b l = record b { lifecycle = some l }
