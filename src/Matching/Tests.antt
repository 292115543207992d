-- ===== src/Matching/Tests.antt =====
-- The engine of src/matching.rs on a small book: two asks at one price, and a buy for both.
use order_book.Prelude.{
  Result, err, List, map, add_u64, tree_last, map_get, map_insert, map_remove, text_beq,
  tree_insert, tree_first, sub_u64, ℕ, ◌≡◌, Option, refl, [], ◌∷◌, none, some, ok, OnOk, arith,
}
use order_book.Side.{ask, bid, opposite}
use order_book.Instrument.{
  InstrumentSpec, admits_price, admits_qty, admits_notional, above_max, check_notional,
}
use order_book.Allocation.Fifo.{fifo_matcher, allocate}
use order_book.Allocation.Fifo.Keeps.{fifo_matcher-IsFrugal}
use order_book.Types.{
  Order, limit_gtc, stop_market, gtc, prices, limit_price, from_sequence, decimal,
}
use order_book.OrderQueue.Arena.{slots}
use order_book.OrderQueue.Tests.{order, nodes, queue}
use order_book.Storage.{OrderBookStore}
use order_book.Storage.Ladder.{IsStore}
use order_book.Storage.BTree.{BTreeStore, btree_store, best_level, put, remove_level, levels}
use order_book.Storage.BTree.Refines.{IsBTree, btree_store-IsStore}
use order_book.OrderBook.{
  OrderBookError, admit, admit_order, admitted, admit_prices, admit_value, OrderBook, Fault,
  at_level, add_order, cancel_order,
}
use order_book.OrderBook.Index.{Placed, Gone, add_order-Placed, cancel_order-Gone}
use order_book.OrderQueue.{
  remove_client, client_loop, collect_makers, iter_with_keys, iter_loop, remove_key, link_next,
  link_previous, end_after,
}
use order_book.Matching.{within, within_limit, SubmitOutcome, killed, ExecutionReport, activate}
use order_book.Matching.Sweep.{
  Sweep, sweep_loop, sweep_level, store_level, cancel_own, apply_fills, apply_fill, exhausted,
  unlink_exhausted,
}
use order_book.Matching.Engine.{
  fill_against, submit, submit_admitted, execute, execute_loop, process_limit_order,
  process_market_order, matched, reported, last_price, after_sweep, cascade, pop_triggered_stop,
  pop_reached, pop_bid, take_stop,
}
use order_book.Matching.Priority.Fence.{BestFirst}
use order_book.Matching.Priority.{fill_against-BestFirst}
use order_book.Matching.Activate.{IsSafe}
use order_book.Matching.Cascade.{submit-Ends}
use order_book.Matching.Trades.{fill_against-trades, IsFair}
use order_book.Matching.Halts.Level.{Ends}
use order_book.Matching.Halts.{fill_against-Ends}

abbrev spec : InstrumentSpec
spec = record {
  price_scale = 2;
  qty_scale = 0;
  tick_size = 1;
  lot_size = 1;
  min_price = 1;
  max_price = none;
  min_qty = 1;
  max_qty = none;
  min_notional = none;
}

abbrev stores : OrderBookStore ℕ
stores = btree_store ℕ

abbrev asks : BTreeStore ℕ
asks = record {
  bids = [];
  asks = (10000, record { price = 10000; side = ask; queue = queue }) ∷ [];
}

abbrev small_book : OrderBook slots stores
small_book = record {
  store = asks;
  nodes = nodes;
  stop_bids = [];
  stop_asks = [];
  last_trade_price = none;
  index = (b'a' ∷ 5 ∷ [], at_level ask 10000 0) ∷ (b'b' ∷ 6 ∷ [], at_level ask 10000 1) ∷ [];
  next_seq = 3;
  next_arrival = 8;
  spec = spec;
  matcher = fifo_matcher;
}

abbrev taker : Order
taker = record (order b'c' 11) { order_type = limit_gtc 10001; side = bid }

asks-IsBTree : IsBTree ℕ asks
asks-IsBTree = record {
  bids_keyed = tt;
  asks_keyed = (refl, tt);
  bids_sorted = tt;
  asks_sorted = (tt, tt);
}

fill_against-trades_example :
    OnOk
      (IsFair slots stores taker (some 10001))
      (fill_against slots stores small_book taker (some 10001))
fill_against-trades_example =
    fill_against-trades slots stores small_book taker (some 10001) fifo_matcher-IsFrugal
      (omega arith)

btree_store-IsStore_example : IsStore ℕ stores (IsBTree ℕ)
btree_store-IsStore_example = btree_store-IsStore ℕ

fill_against-Ends_example :
    Ends (λ s. IsBTree ℕ s.store) (fill_against slots stores small_book taker (some 10001))
fill_against-Ends_example =
    fill_against-Ends slots stores (IsBTree ℕ) (btree_store-IsStore ℕ) small_book taker (some 10001)
      asks-IsBTree

fill_against-BestFirst_example :
    OnOk
      (λ s. BestFirst (opposite taker.side) s.trades)
      (fill_against slots stores small_book taker (some 10001))
fill_against-BestFirst_example =
    fill_against-BestFirst slots stores (IsBTree ℕ) (btree_store-IsStore ℕ) small_book taker
      (some 10001) asks-IsBTree

-- A buy stop at the price that the taker trades at.
abbrev stop_order : Order
stop_order = record (order b'd' 3) { order_type = stop_market 10000; side = bid }

abbrev book_with_stop : OrderBook slots stores
book_with_stop = record small_book { stop_bids = (10000, stop_order ∷ []) ∷ [] }

submit-Ends_example :
    Ends
      (λ r. IsSafe slots stores (IsBTree ℕ) (btree_store-IsStore ℕ) r.0)
      (submit slots stores book_with_stop taker)
submit-Ends_example =
    submit-Ends slots stores (IsBTree ℕ) (btree_store-IsStore ℕ) book_with_stop taker
      (record { valid = asks-IsBTree; bids = (tt, tt); asks = tt })

add_order-Placed_example :
    OnOk
      (Placed slots stores small_book (order b'c' 11) 10000)
      (add_order slots stores small_book (order b'c' 11))
add_order-Placed_example = add_order-Placed slots stores small_book (order b'c' 11) 10000 gtc refl

cancel_order-Gone_example :
    OnOk
      (Gone slots stores small_book (b'a' ∷ 5 ∷ []))
      (cancel_order slots stores small_book (b'a' ∷ 5 ∷ []))
cancel_order-Gone_example = cancel_order-Gone slots stores small_book (b'a' ∷ 5 ∷ [])

abbrev left_after : Result Fault (Sweep slots stores) → Option ℕ
left_after (ok s) = some s.taker.remaining_quantity
left_after (err e) = none

-- The taker takes both asks.
taker_filled : left_after (fill_against slots stores small_book taker (some 10001)) ≡ some 0
unfolding fill_against sweep_loop sweep_level store_level cancel_own apply_fills apply_fill
    exhausted unlink_exhausted opposite within within_limit remove_client client_loop collect_makers
    iter_with_keys iter_loop remove_key link_next link_previous end_after map_get map_insert
    map_remove text_beq best_level put remove_level levels tree_insert tree_first fifo_matcher
    allocate sub_u64
taker_filled = refl

-- The outcomes of the stops that a submission set off.
abbrev triggered_outcomes :
    Result Fault (OrderBook slots stores × Result OrderBookError ExecutionReport)
    → List SubmitOutcome
triggered_outcomes (err f) = []
triggered_outcomes (ok (b, err e)) = []
triggered_outcomes (ok (b, ok report)) = map (λ r. r.outcome) report.triggered

-- The stop is set off by the taker's trades, and finds no ask that is left.
stop_set_off : triggered_outcomes (submit slots stores book_with_stop taker) ≡ killed ∷ []
unfolding fill_against sweep_loop sweep_level store_level cancel_own apply_fills apply_fill
    exhausted unlink_exhausted opposite within within_limit remove_client client_loop collect_makers
    iter_with_keys iter_loop remove_key link_next link_previous end_after map_get map_insert
    map_remove text_beq best_level put remove_level levels tree_insert tree_first fifo_matcher
    allocate sub_u64 submit submit_admitted execute execute_loop process_limit_order
    process_market_order matched reported last_price after_sweep cascade pop_triggered_stop
    pop_reached pop_bid take_stop activate admit admit_order admitted admit_prices admit_value
    admits_price admits_qty admits_notional above_max check_notional prices limit_price add_u64
    from_sequence decimal tree_last
stop_set_off = refl
