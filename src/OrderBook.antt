-- ===== src/OrderBook.antt =====
-- src/orderbook.rs: the book over any store of levels, any slot map and any matcher. An operation
-- that fails leaves the book as it was, so that only its success returns a book.
pub mod Index
pub mod Returns
pub mod Contents
pub mod Rest
pub mod Cancel
pub mod Reindex
pub mod Runs
pub mod Held
pub mod Levels
pub mod StopQueues
pub mod View
pub mod Tests
use order_book.Prelude.{
  ℕ, ◌+◌, ◌==◌, List, [], ◌∷◌, Option, none, some, Bool, true, false, Result, ok, err, guard, ok_or,
  ◌>>=◌, ◌>>◌, if◌then◌else◌, length, ltb, leb, checked, u32_mod, map_get, map_insert, map_remove,
  nat_eq, text_eq, text_beq, tree_insert,
}
use order_book.Side.{Side, ask, bid}
use order_book.Instrument.{
  InstrumentSpec, Price, Qty, Ticks, RejectReason, admits_price, admits_qty, admits_notional,
  ticks_between,
}
use order_book.Allocation.{MatchingAlgorithm}
use order_book.Types.{ExchangeId, Order, OrderType, limit, prices, limit_price}
use order_book.OrderQueue.{SlotMap, OrderArena, push_back, remove_key}
use order_book.Storage.{StoreError, OrderBookStore, best_price}

pub data OrderLocation : Type 0 where
  book : Side → Price → OrderLocation
  stop_book : Side → Price → OrderLocation

pub data OrderAddress (Key : Type 0) : Type 0 where
  at_level : Side → Price → Key → OrderAddress Key
  at_stop : Side → Price → OrderAddress Key

unfoldable pub location : {Key : Type 0} → OrderAddress Key → OrderLocation
location (at_level side price key) = book side price
location (at_stop side trigger) = stop_book side trigger

pub data OrderBookError : Type 0 where
  generic exchange_id_duplicated order_not_found unsupported not_restable : OrderBookError
  rejected : RejectReason → OrderBookError
  storage : StoreError → OrderBookError

-- How an operation ends without a result: an error of the code, a panic, or a loop of the model that
-- has no fuel left.
pub data Fault : Type 0 where
  failed : OrderBookError → Fault
  panic out_of_fuel : Fault

-- `map_err(OrderBookError::Rejected)?`
unfoldable pub admitted : {A : Type 0} → Result RejectReason A → Result Fault A
admitted (ok a) = ok a
admitted (err reason) = err (failed (rejected reason))

unfoldable pub stored : {A : Type 0} → Result StoreError A → Result Fault A
stored (ok a) = ok a
stored (err e) = err (failed (storage e))

-- The pending stops of one side: orders under their trigger, the triggers in ascending order.
abbrev pub Stops : Type 0
Stops = List (Price × List Order)

-- `queue.retain(|o| o.exchange_id != id)`
unfoldable pub retain_others : ExchangeId → List Order → List Order
retain_others id [] = []
retain_others id (o ∷ os) =
    let rest = retain_others id os in if text_beq o.exchange_id id then rest else o ∷ rest

unfoldable pub drop_stop : Stops → Price → ExchangeId → Stops
drop_stop stops trigger id = elim (map_get trigger stops) [
  | none ↦ stops
  | some queue ↦ elim (retain_others id queue) [
    | [] ↦ map_remove trigger stops
    | o ∷ os ↦ tree_insert ltb trigger (o ∷ os) stops
  ]
]

unfoldable pub find_order : ExchangeId → List Order → Option Order
find_order id [] = none
find_order id (o ∷ os) = if text_beq o.exchange_id id then some o else find_order id os

-- The price of `OrderType::Limit`.
unfoldable pub restable_price : OrderType → Option Price
restable_price t = elim t [ limit price tif ↦ some price | _ ↦ none ]

unfoldable pub admit_prices : InstrumentSpec → List Price → Result RejectReason (Unit {0})
admit_prices spec [] = ok tt
admit_prices spec (p ∷ ps) = admits_price spec p >> admit_prices spec ps

unfoldable pub admit_value : InstrumentSpec → Option Price → Qty → Result RejectReason (Unit {0})
admit_value spec none quantity = ok tt
admit_value spec (some price) quantity = admits_notional spec price quantity

unfoldable pub admit_order : InstrumentSpec → Order → Result RejectReason (Unit {0})
admit_order spec order =
    admit_prices spec (prices order.order_type)
    >> admits_qty spec order.original_quantity
    >> admit_value spec (limit_price order.order_type) order.original_quantity

-- `Entry::Vacant`
unfoldable pub is_vacant : {A : Type 0} → Option A → Bool
is_vacant none = true
is_vacant (some a) = false

module _ (slots : SlotMap) (stores : OrderBookStore slots.Key) where
  open slots use {Key, get, with_key}

  pub record OrderBook : Type 0 where
    pub store : stores.Store
    pub nodes : OrderArena slots
    pub stop_bids : Stops
    pub stop_asks : Stops
    pub last_trade_price : Option Price
    pub index : List (ExchangeId × OrderAddress Key)
    pub next_seq : ℕ
    pub next_arrival : ℕ
    pub spec : InstrumentSpec
    pub matcher : MatchingAlgorithm

  -- The assertion of `try_new`: a matcher that floors to a lot floors to the instrument's.
  unfoldable pub lots_agree : Option ℕ → ℕ → Bool
  lots_agree none lot = true
  lots_agree (some l) lot = l == lot

  unfoldable pub try_new : InstrumentSpec → MatchingAlgorithm → Result Fault OrderBook
  try_new spec matcher = do
    guard (lots_agree matcher.lot_size spec.lot_size) panic
    store ← stored (stores.try_new spec)
    ok (record {
      store = store;
      nodes = with_key;
      stop_bids = [];
      stop_asks = [];
      last_trade_price = none;
      index = [];
      next_seq = 1;
      next_arrival = 1;
      spec = spec;
      matcher = matcher;
    })

  unfoldable pub admit : OrderBook → Order → Result Fault (Unit {0})
  admit b order = admitted (admit_order b.spec order)

  unfoldable pub add_order : OrderBook → Order → Result Fault OrderBook
  add_order b order = do
    price ← ok_or (restable_price order.order_type) (failed not_restable)
    admit b order
    guard (is_vacant (map_get order.exchange_id b.index)) (failed exchange_id_duplicated)
    next_arrival ← ok_or (checked u32_mod (b.next_arrival + 1)) panic
    store ← stored (stores.ensure_level b.store order.side price)
    level ← ok_or (stores.level store order.side price) panic
    (queue, nodes, key) ←
        ok_or (push_back slots level.queue b.nodes (record order { arrival = b.next_arrival }))
          panic
    ok (record b {
      store = stores.put store order.side price (record level { queue = queue });
      nodes = nodes;
      index = map_insert order.exchange_id (at_level order.side price key) b.index;
      next_arrival = next_arrival;
    })

  -- What cancelling leaves to do once the address is out of the index.
  unfoldable pub cancel_at : OrderBook → ExchangeId → OrderAddress Key → Result Fault OrderBook
  cancel_at b id (at_level side price key) = do
    level ← ok_or (stores.level b.store side price) panic
    (queue, nodes, removed) ← ok_or (remove_key slots level.queue b.nodes key) panic
    order ← ok_or removed panic
    let store = stores.put b.store side price (record level { queue = queue })
    ok (record b {
      store = if queue.len == 0 then (stores.remove_level store side price).0 else store;
      nodes = nodes;
    })
  cancel_at b id (at_stop bid trigger) =
      ok (record b { stop_bids = drop_stop b.stop_bids trigger id })
  cancel_at b id (at_stop ask trigger) =
      ok (record b { stop_asks = drop_stop b.stop_asks trigger id })

  unfoldable pub cancel_order : OrderBook → ExchangeId → Result Fault OrderBook
  cancel_order b id = do
    address ← ok_or (map_get id b.index) (failed order_not_found)
    cancel_at (record b { index = map_remove id b.index }) id address

  unfoldable pub best_bid : OrderBook → Option Price
  best_bid b = best_price stores b.store bid

  unfoldable pub best_ask : OrderBook → Option Price
  best_ask b = best_price stores b.store ask

  unfoldable pub spread : OrderBook → Option Ticks
  spread b = elim (best_ask b) [
    | none ↦ none
    | some a ↦ elim (best_bid b) [ none ↦ none | some p ↦ some (ticks_between b.spec a p) ]
  ]

  unfoldable pub crosses : OrderBook → Side → Price → Bool
  crosses b ask price = elim (best_bid b) [ none ↦ false | some best ↦ leb price best ]
  crosses b bid price = elim (best_ask b) [ none ↦ false | some best ↦ leb best price ]

  unfoldable pub order_location : OrderBook → ExchangeId → Option OrderLocation
  order_location b id = elim (map_get id b.index) [ none ↦ none | some a ↦ some (location a) ]

  unfoldable pub order_count : OrderBook → ℕ
  order_count b = length b.index

  unfoldable pub find_at : OrderBook → ExchangeId → OrderAddress Key → Option Order
  find_at b id (at_level side price key) = elim (get b.nodes key) [
    | none ↦ none
    | some node ↦ some node.order
  ]
  find_at b id (at_stop bid trigger) = elim (map_get trigger b.stop_bids) [
    | none ↦ none
    | some queue ↦ find_order id queue
  ]
  find_at b id (at_stop ask trigger) = elim (map_get trigger b.stop_asks) [
    | none ↦ none
    | some queue ↦ find_order id queue
  ]

  unfoldable pub get_order : OrderBook → ExchangeId → Option Order
  get_order b id = elim (map_get id b.index) [ none ↦ none | some a ↦ find_at b id a ]
