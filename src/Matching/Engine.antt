-- ===== src/Matching/Engine.antt =====
-- The engine of src/matching.rs: `submit`, `execute`, and the stops.
use order_book.Prelude.{
  ℕ, zero, suc, ◌+◌, List, [], ◌∷◌, ◌++◌, Option, none, some, true, false, Result, ok, err, ◌>>=◌,
  if◌then◌else◌, ltb, leb, length, map_get, map_insert, map_remove, nat_eq, text_eq, tree_insert,
  tree_first, tree_last, add_u64,
}
use order_book.Side.{ask, bid, opposite}
use order_book.Instrument.{Price, is_zero}
use order_book.Types.{
  ExchangeId, Order, limit, market, stop_market, stop_limit, TimeInForce, gtc, ioc, fok,
  from_sequence,
}
use order_book.OrderQueue.{SlotMap}
use order_book.Storage.{OrderBookStore}
use order_book.OrderBook.{
  OrderBook, at_stop, Stops, OrderBookError, exchange_id_duplicated, unsupported, Fault, failed,
  panic, out_of_fuel, admit, add_order,
}
use order_book.Matching.{
  Trade, SubmitOutcome, rested, partially_filled_and_rested, filled, killed, stop_pending,
  Execution, ExecutionReport, MatchingResult, activate, already_triggered,
}
use order_book.Matching.Sweep.{Sweep, sweep_loop, fillable_quantity}

unfoldable pub last_price : List Trade → Option Price
last_price [] = none
last_price (t ∷ ts) = elim (last_price ts) [ none ↦ some t.price | some p ↦ some p ]

-- `stops.entry(trigger).or_default().push(order)`
unfoldable pub push_stop : Stops → Price → Order → Stops
push_stop stops trigger order = elim (map_get trigger stops) [
  | none ↦ tree_insert ltb trigger (order ∷ []) stops
  | some queue ↦ tree_insert ltb trigger (queue ++ order ∷ []) stops
]

-- The oldest order under a trigger, and the stops without it; an empty queue panics.
unfoldable pub take_stop : Stops → Price × List Order → Result Fault (Stops × Order)
take_stop stops (trigger, []) = err panic
take_stop stops (trigger, o ∷ []) = ok (map_remove trigger stops, o)
take_stop stops (trigger, o ∷ p ∷ ps) = ok (tree_insert ltb trigger (p ∷ ps) stops, o)

abbrev pub reached_up : Price → Option (Price × List Order) → Option (Price × List Order)
reached_up last none = none
reached_up last (some e) = if leb e.0 last then some e else none

abbrev pub reached_down : Price → Option (Price × List Order) → Option (Price × List Order)
reached_down last none = none
reached_down last (some e) = if leb last e.0 then some e else none

abbrev pub count_stops : Stops → ℕ
count_stops [] = 0
count_stops (e ∷ stops) = length e.1 + count_stops stops

module _ (slots : SlotMap) (stores : OrderBookStore slots.Key) where
  abbrev pub Book : Type 0
  Book = OrderBook slots stores

  -- The book afterwards, and the result of the code.
  abbrev pub Outcome : Type 0 → Type 0
  Outcome A = Result Fault (Book × Result OrderBookError A)

  -- The variables of `fill_against` as it starts.
  abbrev pub opening : Book → Order → Sweep slots stores
  opening b order = record {
    store = b.store;
    nodes = b.nodes;
    index = b.index;
    taker = order;
    trades = [];
    cancelled = [];
  }

  -- `fill_against` on the fields of a book; the order, the trades and the cancellations are in the
  -- sweep.
  unfoldable pub fill_against : Book → Order → Option Price → Result Fault (Sweep slots stores)
  fill_against b order bound =
      sweep_loop slots stores (suc (length (stores.levels b.store (opposite order.side)))) b.matcher
        (record { now = b.next_arrival; lot = b.spec.lot_size }) bound (opening b order)

  unfoldable pub after_sweep : Book → Sweep slots stores → Book
  after_sweep b s = record b { store = s.store; nodes = s.nodes; index = s.index }

  unfoldable pub matched : Sweep slots stores → SubmitOutcome → MatchingResult
  matched s outcome = record { trades = s.trades; cancelled = s.cancelled; outcome = outcome }

  -- A book that `add_order` returns, or the error that it fails with on the book as it was.
  unfoldable pub settled : {A : Type 0} → Book → Result Fault Book → A → Outcome A
  settled b (ok b') a = ok (b', ok a)
  settled b (err (failed e)) a = ok (b, err e)
  settled b (err panic) a = err panic
  settled b (err out_of_fuel) a = err out_of_fuel

  unfoldable pub rested_outcome : List Trade → SubmitOutcome
  rested_outcome [] = rested
  rested_outcome (t ∷ ts) = partially_filled_and_rested

  -- The fate of an order's remainder.
  unfoldable pub remainder : Book → Sweep slots stores → TimeInForce → Outcome MatchingResult
  remainder b s gtc =
      settled b (add_order slots stores b s.taker) (matched s (rested_outcome s.trades))
  remainder b s ioc = ok (b, ok (matched s killed))
  remainder b s fok = ok (b, err unsupported)

  unfoldable pub process_limit_order : Book → Order → Price → TimeInForce → Outcome MatchingResult
  process_limit_order b order bound tif = do
    s ← fill_against b order (some bound)
    let swept = after_sweep b s
    elim (is_zero s.taker.remaining_quantity) [
      | true ↦ ok (swept, ok (matched s filled))
      | false ↦ remainder swept s tif
    ]

  unfoldable pub process_fok_limit_order : Book → Order → Price → Outcome MatchingResult
  process_fok_limit_order b order bound = do
    available ← fillable_quantity slots stores b.store b.nodes (opposite order.side) order bound
    elim (ltb available order.remaining_quantity) [
      | true ↦ ok (b, ok (record { trades = []; cancelled = []; outcome = killed }))
      | false ↦ do
        s ← fill_against b order (some bound)
        ok (after_sweep b s, ok (matched s filled))
    ]

  unfoldable pub process_market_order : Book → Order → Outcome MatchingResult
  process_market_order b order = do
    s ← fill_against b order none
    ok (
      after_sweep b s,
      ok (matched s (if is_zero s.taker.remaining_quantity then filled else killed)),
    )

  -- The report of a match, and the price that the next stop looks at.
  unfoldable pub reported :
      ExchangeId
      → Book × Result OrderBookError MatchingResult
      → Book × Result OrderBookError Execution
  reported id (b, err e) = (b, err e)
  reported id (b, ok r) = (
    elim (last_price r.trades) [ none ↦ b | some p ↦ record b { last_trade_price = some p } ],
    ok (record { order_id = id; trades = r.trades; outcome = r.outcome; cancelled = r.cancelled }),
  )

  unfoldable pub with_stop : Book → Order → Price → Book
  with_stop b order trigger = elim order.side [
    | bid ↦ record b { stop_bids = push_stop b.stop_bids trigger order }
    | ask ↦ record b { stop_asks = push_stop b.stop_asks trigger order }
  ]

  -- `park_or_activate_stop` when the trigger is not reached.
  unfoldable pub park : Book → Order → Price → Book × Result OrderBookError Execution
  park b order trigger = elim (map_get order.exchange_id b.index) [
    | some a ↦ (b, err exchange_id_duplicated)
    | none ↦ (
      with_stop
          (record b { index = map_insert order.exchange_id (at_stop order.side trigger) b.index })
          order trigger,
      ok (record {
        order_id = order.exchange_id;
        trades = [];
        outcome = stop_pending;
        cancelled = [];
      }),
    )
  ]

  -- `execute`, on fuel; an activated stop executes once more, and is no stop then.
  unfoldable pub execute_loop : ℕ → Book → Order → Outcome Execution
  execute_loop zero b order = err out_of_fuel
  execute_loop (suc fuel) b order = elim order.order_type [
    | limit price gtc ↦
        process_limit_order b order price gtc >>= λ r. ok (reported order.exchange_id r)
    | limit price ioc ↦
        process_limit_order b order price ioc >>= λ r. ok (reported order.exchange_id r)
    | limit price fok ↦
        process_fok_limit_order b order price >>= λ r. ok (reported order.exchange_id r)
    | market ↦ process_market_order b order >>= λ r. ok (reported order.exchange_id r)
    | stop_market trigger ↦ elim (already_triggered b.last_trade_price order.side trigger) [
      | true ↦ execute_loop fuel b (activate order)
      | false ↦ ok (park b order trigger)
    ]
    | stop_limit trigger price tif ↦
        elim (already_triggered b.last_trade_price order.side trigger) [
          | true ↦ execute_loop fuel b (activate order)
          | false ↦ ok (park b order trigger)
        ]
  ]

  unfoldable pub execute : Book → Order → Outcome Execution
  execute = execute_loop 2

  unfoldable pub pop_bid : Book → Price × List Order → Result Fault (Option (Book × Order))
  pop_bid b e = do
    (stops, order) ← take_stop b.stop_bids e
    ok (some (record b { stop_bids = stops; index = map_remove order.exchange_id b.index }, order))

  unfoldable pub pop_ask : Book → Price × List Order → Result Fault (Option (Book × Order))
  pop_ask b e = do
    (stops, order) ← take_stop b.stop_asks e
    ok (some (record b { stop_asks = stops; index = map_remove order.exchange_id b.index }, order))

  -- The stop that the last price reaches: a buy stop before a sell stop.
  unfoldable pub pop_reached : Book → Price → Result Fault (Option (Book × Order))
  pop_reached b last = elim (reached_up last (tree_first b.stop_bids)) [
    | some e ↦ pop_bid b e
    | none ↦ elim (reached_down last (tree_last b.stop_asks)) [
      | some e ↦ pop_ask b e
      | none ↦ ok none
    ]
  ]

  unfoldable pub pop_triggered_stop : Book → Result Fault (Option (Book × Order))
  pop_triggered_stop b = elim b.last_trade_price [ none ↦ ok none | some last ↦ pop_reached b last ]

  -- The loop of `submit` over the triggered stops; a failure keeps what was done before it.
  unfoldable pub cascade : ℕ → Book → List Execution → Outcome (List Execution)
  cascade zero b done = err out_of_fuel
  cascade (suc fuel) b done = do
    popped ← pop_triggered_stop b
    elim popped [
      | none ↦ ok (b, ok done)
      | some (b', stop) ↦ do
        (b'', r) ← execute b' (activate stop)
        elim r [ err e ↦ ok (b'', err e) | ok report ↦ cascade fuel b'' (done ++ report ∷ []) ]
    ]

  abbrev pub pending : Book → ℕ
  pending b = count_stops b.stop_bids + count_stops b.stop_asks

  unfoldable pub submit_admitted : Book → Order → Outcome ExecutionReport
  submit_admitted b order = do
    (b', r) ←
        execute (record b { next_seq = add_u64 b.next_seq 1 })
          (record order { exchange_id = from_sequence b.next_seq })
    elim r [
      | err e ↦ ok (b', err e)
      | ok report ↦ do
        (b'', rs) ← cascade (suc (pending b')) b' []
        elim rs [
          | err e ↦ ok (b'', err e)
          | ok triggered ↦ ok (b'', ok (record { execution = report; triggered = triggered }))
        ]
    ]

  unfoldable pub submit : Book → Order → Outcome ExecutionReport
  submit b order = elim (admit slots stores b order) [
    | ok _ ↦ submit_admitted b order
    | err (failed e) ↦ ok (b, err e)
    | err panic ↦ err panic
    | err out_of_fuel ↦ err out_of_fuel
  ]
