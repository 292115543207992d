-- ===== src/Matching/Sound/Tests.antt =====
-- A session of src/matching.rs of one resting ask and a buy stop, and a buy that sets the stop off.
use order_book.Prelude.{
  ◌≡◌, refl, [], ◌∷◌, none, some, ok, Result, arith, map_get, map_insert, text_eq, nat_eq, text_beq,
  tree_insert, add_u64,
}
use order_book.Side.{ask, bid}
use order_book.Instrument.{admits_price, admits_qty, admits_notional, above_max, check_notional}
use order_book.Types.{Order, stop_market, from_sequence, decimal, prices, limit_price}
use order_book.OrderQueue.Arena.{slots, slots-IsSlotMap}
use order_book.OrderQueue.Tests.{order}
use order_book.Storage.BTree.Refines.{IsBTree, btree_store-IsStore}
use order_book.OrderBook.{
  OrderBook, OrderBookError, cancel_order, order_location, location, book, stop_book, at_stop,
  get_order, admit, admitted, admit_order, admit_prices, admit_value,
}
use order_book.OrderBook.Contents.{Contents, IsBook}
use order_book.OrderBook.Held.{SameStops}
use order_book.OrderBook.Returns.{Returns}
use order_book.OrderBook.Tests.{spec, stores, one_book, first, at_first, first_agrees, opens, rests}
use order_book.Allocation.Fifo.{fifo_matcher}
use order_book.Matching.{ExecutionReport, stop_pending, already_triggered}
use order_book.Matching.Sweep.{Sweep}
use order_book.Matching.Engine.{
  fill_against, submit, submit_admitted, execute, execute_loop, park, with_stop, push_stop, cascade,
  pop_triggered_stop,
}
use order_book.Matching.Safe.{fill_against-IsBook}
use order_book.Matching.Safe.Fills.{NoSelfTrade}
use order_book.Matching.Safe.Level.{swept}
use order_book.Matching.Safe.Matchers.{matchers-IsInRange}
use order_book.Matching.Sound.Parks.{IsSound}
use order_book.Matching.Sound.Session.{
  Session, opened, added, submitted, Session-IsSound, Session-cancels, Session-finds_stop,
}

-- A buy of the client "b", at the ask's price.
abbrev buy : Order
buy = record (order b'b' 3) { side = bid }

abbrev Book : Type 0
Book = OrderBook slots stores

abbrev Sound : Book → Type 0
Sound = IsSound slots slots-IsSlotMap stores (IsBTree _) (btree_store-IsStore _)

session : Session slots stores spec fifo_matcher 1 one_book
session = added first (opened opens) rests

fill_against-IsBook_example :
    (s : Sweep slots stores) × (fill_against slots stores one_book buy (some 10000) ≡ ok s)
    × ((c : Contents slots) × IsBook slots stores
          (IsBTree _)
          (btree_store-IsStore _)
          (swept slots stores one_book s)
          c
        × NoSelfTrade s.trades
        × SameStops one_book.index s.index)
fill_against-IsBook_example =
    fill_against-IsBook slots slots-IsSlotMap stores (IsBTree _) (btree_store-IsStore _) one_book
      (at_first first_agrees.0) buy (some 10000) first_agrees.1 matchers-IsInRange.0

located : order_location slots stores one_book first.exchange_id ≡ some (book ask 10000)
unfolding order_location location map_get text_beq
located = refl

Session-cancels_example :
    (b : Book) × (cancel_order slots stores one_book first.exchange_id ≡ ok b)
    × (order_location slots stores b first.exchange_id ≡ none)
    × Sound b
Session-cancels_example =
    Session-cancels slots stores slots-IsSlotMap (IsBTree _) (btree_store-IsStore _) spec
      fifo_matcher matchers-IsInRange.0 1 one_book first.exchange_id (book ask 10000) session
      (omega arith) located

-- A buy stop at the ask's price, and what `submit` makes of it.
abbrev stop : Order
stop = record (order b'd' 3) { order_type = stop_market 10000; side = bid }

abbrev parked : Order
parked = record stop { exchange_id = from_sequence 1 }

abbrev book_with_stop : Book
book_with_stop = record one_book {
  stop_bids = (10000, parked ∷ []) ∷ [];
  index = map_insert parked.exchange_id (at_stop bid 10000) one_book.index;
  next_seq = 2;
}

parks :
    submit slots stores one_book stop
    ≡ ok (
      book_with_stop,
      ok (record {
        execution = record {
          order_id = parked.exchange_id;
          trades = [];
          outcome = stop_pending;
          cancelled = [];
        };
        triggered = [];
      }),
    )
unfolding submit submit_admitted execute execute_loop park with_stop push_stop cascade
    pop_triggered_stop already_triggered admit admitted admit_order admit_prices admit_value
    admits_price admits_qty admits_notional above_max check_notional prices limit_price add_u64
    from_sequence decimal map_get map_insert text_beq tree_insert
parks = refl

after_stop : Session slots stores spec fifo_matcher 2 book_with_stop
after_stop = submitted stop session parks

Session-IsSound_example :
    Sound book_with_stop
    × ((r : Book × Result OrderBookError ExecutionReport) × (submit slots stores book_with_stop buy
          ≡ ok r)
        × Sound r.0)
    × Returns Sound (cancel_order slots stores book_with_stop parked.exchange_id)
Session-IsSound_example =
    Session-IsSound slots stores slots-IsSlotMap (IsBTree _) (btree_store-IsStore _) spec
      fifo_matcher matchers-IsInRange.0 2 book_with_stop buy parked.exchange_id after_stop
      (omega arith)

only_stop : map_get 10000 book_with_stop.stop_bids ≡ some (parked ∷ [])
unfolding map_get
only_stop = refl

Session-finds_stop_example :
    (get_order slots stores book_with_stop parked.exchange_id ≡ some parked)
    × (order_location slots stores book_with_stop parked.exchange_id ≡ some (stop_book bid 10000))
Session-finds_stop_example =
    Session-finds_stop slots stores slots-IsSlotMap (IsBTree _) (btree_store-IsStore _) spec
      fifo_matcher matchers-IsInRange.0 2 book_with_stop bid 10000 [] [] parked after_stop
      (omega arith) only_stop
