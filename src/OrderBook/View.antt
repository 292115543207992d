-- ===== src/OrderBook/View.antt =====
-- The borrowed levels of src/types.rs, `PriceLevelView`, and the queries of src/orderbook.rs that
-- return them or what they hold. A query that follows a broken link of a queue panics, `none`.
pub mod Best
pub mod Depth
use mathlib.Core.Option
use order_book.Prelude.{ℕ, List, [], ◌∷◌, Option, none, some, Bool, map, take}
use order_book.Side.{Side, ask, bid}
use order_book.Instrument.{Price, Qty, sum_qty}
use order_book.Allocation.{Maker}
use order_book.Types.{ExchangeId, Order, PriceLevel, to_maker, ◌>>=◌}
use order_book.OrderQueue.{SlotMap, OrderArena, iter}
use order_book.Storage.{BookLevel, OrderBookStore}
use order_book.Storage
use order_book.OrderBook.{OrderBook}

module _ (slots : SlotMap) where
  open slots use {Key}

  pub record PriceLevelView : Type 0 where
    pub price : Price
    pub side : Side
    pub level : BookLevel Key
    pub nodes : OrderArena slots

  unfoldable pub new : BookLevel Key → OrderArena slots → PriceLevelView
  new level nodes = record { price = level.price; side = level.side; level = level; nodes = nodes }

  unfoldable pub is_empty : PriceLevelView → Bool
  is_empty view = Storage.is_empty view.level

  unfoldable pub order_count : PriceLevelView → ℕ
  order_count view = Storage.order_count view.level

  unfoldable pub orders : PriceLevelView → Option (List Order)
  orders view = iter slots view.level.queue view.nodes

  unfoldable pub makers : PriceLevelView → Option (List Maker)
  makers view = Option.map (map to_maker) (orders view)

  unfoldable pub total_quantity : PriceLevelView → Option Qty
  total_quantity view =
      Option.map (λ os. sum_qty 0 (map (λ (o : Order). o.remaining_quantity) os)) (orders view)

  unfoldable pub to_owned : PriceLevelView → Option PriceLevel
  to_owned view =
      Option.map (λ os. record { price = view.price; side = view.side; orders = os }) (orders view)

  -- `map(|level| (level.price, level.total_quantity())).collect()`
  unfoldable pub collect_rows : List PriceLevelView → Option (List (Price × Qty))
  collect_rows [] = some []
  collect_rows (view ∷ views) = do
    quantity ← total_quantity view
    rows ← collect_rows views
    some ((view.price, quantity) ∷ rows)

  -- `map(|level| level.to_owned())`
  unfoldable pub owned : Option PriceLevelView → Option (Option PriceLevel)
  owned none = some none
  owned (some view) = Option.map some (to_owned view)

  module _ (stores : OrderBookStore Key) where
    unfoldable pub levels : OrderBook slots stores → Side → List PriceLevelView
    levels b side = map (λ l. new l b.nodes) (stores.levels b.store side)

    unfoldable pub level : OrderBook slots stores → Side → Price → Option PriceLevelView
    level b side price = Option.map (λ l. new l b.nodes) (stores.level b.store side price)

    unfoldable pub best_level : OrderBook slots stores → Side → Option PriceLevelView
    best_level b side = Option.map (λ l. new l b.nodes) (stores.best_level b.store side)

    unfoldable pub best_bid_level : OrderBook slots stores → Option (Option PriceLevel)
    best_bid_level b = owned (best_level b bid)

    unfoldable pub best_ask_level : OrderBook slots stores → Option (Option PriceLevel)
    best_ask_level b = owned (best_level b ask)

    unfoldable pub depth : OrderBook slots stores → Side → ℕ → Option (List (Price × Qty))
    depth b side n = collect_rows (take n (levels b side))

    unfoldable pub order_ids : OrderBook slots stores → List ExchangeId
    order_ids b = map (λ e. e.0) b.index
