-- ===== src/Matching/Sweep.antt =====
-- The sweep of src/matching.rs: `fillable_quantity` and `fill_against`.
use order_book.Prelude.{
  ℕ, zero, suc, ◌==◌, List, [], ◌∷◌, ◌++◌, Option, none, some, Bool, true, false, Result, ok, err,
  ok_or, ◌>>=◌, if◌then◌else◌, leb, text_beq, get_elem?, map_remove, text_eq,
}
use order_book.Side.{Side, opposite}
use order_book.Instrument.{Price, Qty, add_qty, sub_qty, is_zero}
use order_book.Allocation.{Fill, MatchingAlgorithm}
use order_book.Types.{ExchangeId, ClientId, Order}
use order_book.OrderQueue.{
  SlotMap, Node, LevelQueue, OrderArena, iter, remove_client, collect_makers, remove_key,
}
use order_book.Storage.{BookLevel, OrderBookStore}
use order_book.OrderBook.{OrderAddress, Fault, panic, out_of_fuel}
use order_book.Matching.{Trade, SweepContext, within, within_limit}

-- The inner loop of `fillable_quantity`; the flag is an early return.
unfoldable pub count_orders : ClientId → Qty → Qty → List Order → Qty × Bool
count_orders client needed available [] = (available, false)
count_orders client needed available (o ∷ os) =
    let passed = count_orders client needed available os in
    let more = add_qty available o.remaining_quantity in
    let rest = count_orders client needed more os in
    if text_beq o.client_id client then passed else if leb needed more then (more, true) else rest

module _ (slots : SlotMap) (stores : OrderBookStore slots.Key) where
  open slots use {Key, get, set}

  unfoldable pub count_levels :
      OrderArena slots → Order → Price → Qty → List (BookLevel Key) → Result Fault Qty
  count_levels nodes taker bound available [] = ok available
  count_levels nodes taker bound available (level ∷ levels) =
      elim (within_limit taker.side level.price bound) [
        | false ↦ ok available
        | true ↦ do
          orders ← ok_or (iter slots level.queue nodes) panic
          let counted = count_orders taker.client_id taker.remaining_quantity available orders
          elim counted.1 [
            | true ↦ ok counted.0
            | false ↦ count_levels nodes taker bound counted.0 levels
          ]
      ]

  unfoldable pub fillable_quantity :
      stores.Store → OrderArena slots → Side → Order → Price → Result Fault Qty
  fillable_quantity store nodes maker_side taker bound =
      count_levels nodes taker bound 0 (stores.levels store maker_side)

  -- The variables of `fill_against`.
  pub record Sweep : Type 0 where
    pub store : stores.Store
    pub nodes : OrderArena slots
    pub index : List (ExchangeId × OrderAddress Key)
    pub taker : Order
    pub trades : List Trade
    pub cancelled : List ExchangeId

  -- The taker's own orders leave the index and are reported as cancelled.
  unfoldable pub cancel_own : Sweep → List Order → Sweep
  cancel_own s [] = s
  cancel_own s (own ∷ owns) =
      cancel_own
        (record s {
          index = map_remove own.exchange_id s.index;
          cancelled = s.cancelled ++ own.exchange_id ∷ [];
        })
        owns

  -- One fill at a maker's node.
  unfoldable pub apply_fill : Sweep → Price → Key → Node Key → Qty → Sweep
  apply_fill s price key node quantity = record s {
    nodes = set s.nodes key (record node {
      order = record node.order {
        remaining_quantity = sub_qty node.order.remaining_quantity quantity;
      };
    });
    taker = record s.taker { remaining_quantity = sub_qty s.taker.remaining_quantity quantity };
    trades =
        s.trades
        ++ record {
          price = price;
          quantity = quantity;
          maker_order_id = node.order.exchange_id;
          taker_order_id = s.taker.exchange_id;
          maker_client = node.order.client_id;
          taker_client = s.taker.client_id;
          taker_side = s.taker.side;
          timestamp = s.taker.timestamp;
        }
          ∷ [];
  }

  unfoldable pub apply_fills : Sweep → Price → List Key → List Fill → Result Fault Sweep
  apply_fills s price keys [] = ok s
  apply_fills s price keys (f ∷ fs) = elim (get_elem? keys f.order_index) [
    | none ↦ err panic
    | some key ↦ elim (get s.nodes key) [
      | none ↦ err panic
      | some node ↦ apply_fills (apply_fill s price key node f.quantity) price keys fs
    ]
  ]

  unfoldable pub exhausted : Option (Node Key) → Bool
  exhausted none = false
  exhausted (some node) = is_zero node.order.remaining_quantity

  -- The second pass over the fills: makers with nothing left leave the queue and the index.
  unfoldable pub unlink_exhausted :
      Sweep → LevelQueue Key → List Key → List Fill → Result Fault (Sweep × LevelQueue Key)
  unlink_exhausted s queue keys [] = ok (s, queue)
  unlink_exhausted s queue keys (f ∷ fs) = elim (get_elem? keys f.order_index) [
    | none ↦ err panic
    | some key ↦ elim (exhausted (get s.nodes key)) [
      | false ↦ unlink_exhausted s queue keys fs
      | true ↦ do
        (queue', nodes, removed) ← ok_or (remove_key slots queue s.nodes key) panic
        done ← ok_or removed panic
        unlink_exhausted (record s { nodes = nodes; index = map_remove done.exchange_id s.index })
            queue' keys fs
    ]
  ]

  -- The body of the loop at one level: self-trade prevention, the allocation and its fills.
  unfoldable pub sweep_level :
      MatchingAlgorithm
      → SweepContext
      → Sweep
      → BookLevel Key
      → Result Fault (Sweep × LevelQueue Key)
  sweep_level matcher context s level = do
    (queue, nodes, owns) ← ok_or (remove_client slots level.queue s.nodes s.taker.client_id) panic
    let own = cancel_own (record s { nodes = nodes }) owns
    (makers, keys) ← ok_or (collect_makers slots queue nodes) panic
    let fills = matcher.allocate s.taker.remaining_quantity makers context.now
    applied ← apply_fills own level.price keys fills
    unlink_exhausted applied queue keys fills

  -- The level's place in the store once its queue has changed.
  unfoldable pub store_level : Sweep → Side → BookLevel Key → LevelQueue Key → Sweep
  store_level s side level queue =
      let store = stores.put s.store side level.price (record level { queue = queue }) in
      record s {
        store = if queue.len == 0 then (stores.remove_level store side level.price).0 else store;
      }

  -- The loop of `fill_against`, one unit of fuel for each level.
  unfoldable pub sweep_loop :
      ℕ → MatchingAlgorithm → SweepContext → Option Price → Sweep → Result Fault Sweep
  sweep_loop zero matcher context bound s = err out_of_fuel
  sweep_loop (suc fuel) matcher context bound s = elim (is_zero s.taker.remaining_quantity) [
    | true ↦ ok s
    | false ↦ elim (stores.best_level s.store (opposite s.taker.side)) [
      | none ↦ ok s
      | some level ↦ elim (within s.taker.side level.price bound) [
        | false ↦ ok s
        | true ↦ do
          (swept, queue) ← sweep_level matcher context s level
          let next = store_level swept (opposite s.taker.side) level queue
          elim (queue.len == 0) [
            | true ↦ sweep_loop fuel matcher context bound next
            | false ↦ ok next
          ]
      ]
    ]
  ]
