-- ===== src/Matching/FillOrKill/Tests.antt =====
-- A fill-or-kill order of src/matching.rs behind an order that rests with nothing left.
use order_book.Prelude.{
  ◌≡◌, refl, List, [], ◌∷◌, ok, err, Result, ◌>>=◌, map_get, map_insert, map_remove, text_beq,
  tree_insert, tree_first, add_u64, sub_u64,
}
use order_book.Side.{bid, opposite}
use order_book.Instrument.{admits_price, admits_qty, admits_notional, above_max, check_notional}
use order_book.Allocation.Fifo.{fifo_matcher, allocate, fifo_loop}
use order_book.Types.{Order, limit, fok, limit_gtc, prices, limit_price}
use order_book.OrderQueue.{
  push_back, remove_client, client_loop, collect_makers, iter_with_keys, iter_loop, iter,
  remove_key, link_next, link_previous, end_after,
}
use order_book.OrderQueue.Arena.{slots}
use order_book.OrderQueue.Tests.{order}
use order_book.Storage.{new}
use order_book.Storage.BTree.{level, put, ensure_level, levels, best_level, remove_level}
use order_book.OrderBook.{
  Fault, OrderBookError, add_order, restable_price, admit, admitted, admit_order, admit_prices,
  admit_value, is_vacant, stored,
}
use order_book.OrderBook.Tests.{stores, empty_book, Book}
use order_book.Matching.{MatchingResult, filled, within, within_limit}
use order_book.Matching.Sweep.{
  sweep_loop, sweep_level, store_level, cancel_own, apply_fills, apply_fill, exhausted,
  unlink_exhausted, fillable_quantity, count_levels, count_orders,
}
use order_book.Matching.Engine.{fill_against, process_fok_limit_order, matched, after_sweep}

-- An ask of the client "a" with nothing left, which admission lets through for its original quantity.
abbrev spent : Order
spent = record (order b'a' 5) { remaining_quantity = 0 }

-- An ask of the client "c" behind it, one tick away.
abbrev behind : Order
behind = record (order b'c' 5) { order_type = limit_gtc 10001 }

abbrev taker : Order
taker = record (order b'b' 5) { side = bid; order_type = limit 10001 fok }

abbrev Outcome : Type 0
Outcome = Result Fault (Book × Result OrderBookError MatchingResult)

abbrev spent_then_fok : Outcome
spent_then_fok = do
  b ← add_order slots stores empty_book spent
  b' ← add_order slots stores b behind
  process_fok_limit_order slots stores b' taker 10001

abbrev reports : Outcome → List MatchingResult
reports (ok (b, ok m)) = m ∷ []
reports (ok (b, err e)) = []
reports (err e) = []

-- The spent order survives its level, so the sweep stops there: the order is reported as filled, by no
-- trade.
filled_by_nothing :
    reports spent_then_fok ≡ record { trades = []; cancelled = []; outcome = filled } ∷ []
unfolding add_order restable_price admit admitted admit_order admit_prices admit_value admits_price
    admits_qty admits_notional above_max check_notional is_vacant stored ensure_level level put new
    push_back link_next link_previous end_after map_get map_insert map_remove text_beq tree_insert
    tree_first prices limit_price add_u64 sub_u64 process_fok_limit_order matched after_sweep
    fill_against sweep_loop sweep_level store_level cancel_own apply_fills apply_fill exhausted
    unlink_exhausted fillable_quantity count_levels count_orders remove_client client_loop
    collect_makers iter_with_keys iter_loop iter remove_key best_level remove_level levels opposite
    within within_limit fifo_matcher allocate fifo_loop
filled_by_nothing = refl
