-- ===== src/OrderBook/Tests.antt =====
-- A book of src/orderbook.rs over ordered maps: opened, with one order rested, and emptied again.
use order_book.Prelude.{
  ℕ, ◌≡◌, refl, [], ◌∷◌, ◌++◌, none, some, ok, arith, map_get, map_insert, text_beq, tree_insert,
  add_u64, text_eq, some_inj, none_not_some, sym, subst, Option,
}
use order_book.Side.{Side, ask, bid}
use order_book.Instrument.{
  InstrumentSpec, Price, admits_price, admits_qty, admits_notional, above_max, check_notional,
}
use order_book.Allocation.Fifo.{fifo_matcher}
use order_book.Types.{Order, PriceLevel, prices, limit_price}
use order_book.OrderQueue.{push_back, link_next, end_after}
use order_book.OrderQueue.Arena.{slots, slots-IsSlotMap}
use order_book.OrderQueue.Tests.{order}
use order_book.Storage.{OrderBookStore, new}
use order_book.Storage.BTree.{btree_store, try_new, level, put, ensure_level, levels}
use order_book.Storage.BTree.Refines.{IsBTree, btree_store-IsStore}
use order_book.OrderBook.{
  OrderBook, at_level, book, add_order, cancel_order, order_location, location, get_order,
  restable_price, admit, admitted, admit_order, admit_prices, admit_value, is_vacant, stored,
  lots_agree,
}
use order_book.OrderBook
use order_book.OrderBook.Returns.{Returns}
use order_book.OrderBook.Contents.{Contents, update, IsBook, At}
use order_book.OrderBook.View.{depth, best_bid_level, best_ask_level}
use order_book.OrderBook.View.Depth.{Rows, IsDepth, depth-IsDepth}
use order_book.OrderBook.View.Best.{IsBestLevel, best_levels-IsBestLevel}
use order_book.Storage.Ladder.{find_level}
use order_book.OrderBook.Rest.{add_order-IsBook}
use order_book.OrderBook.Cancel.{Cancelled, cancel_order-IsBook}
use order_book.OrderBook.Runs.{Reaches, opened, added, Agrees, Reaches-Agrees, get_order-At}

abbrev pub spec : InstrumentSpec
spec = record {
  price_scale = 2;
  qty_scale = 0;
  tick_size = 1;
  lot_size = 1;
  min_price = 1;
  max_price = none;
  min_qty = 1;
  max_qty = none;
  min_notional = none;
}

abbrev pub stores : OrderBookStore ℕ
stores = btree_store ℕ

abbrev pub Book : Type 0
Book = OrderBook slots stores

abbrev pub empty_book : Book
empty_book = record {
  store = record { bids = []; asks = [] };
  nodes = [];
  stop_bids = [];
  stop_asks = [];
  last_trade_price = none;
  index = [];
  next_seq = 1;
  next_arrival = 1;
  spec = spec;
  matcher = fifo_matcher;
}

-- The order "a" of 5 lots, which rests at an ask of 10000.
abbrev pub first : Order
first = order b'a' 5

abbrev pub one_book : Book
one_book = record empty_book {
  store = record {
    bids = [];
    asks =
        (
          10000,
          record {
            price = 10000;
            side = ask;
            queue = record { head = some 0; tail = some 0; len = 1 };
          },
        )
        ∷ [];
  };
  nodes = (0, record { order = record first { arrival = 1 }; previous = none; next = none }) ∷ [];
  index = (first.exchange_id, at_level ask 10000 0) ∷ [];
  next_arrival = 2;
}

pub opens : OrderBook.try_new slots stores spec fifo_matcher ≡ ok empty_book
unfolding OrderBook.try_new try_new stored lots_agree fifo_matcher
opens = refl

pub rests : add_order slots stores empty_book first ≡ ok one_book
unfolding add_order restable_price admit admitted admit_order admit_prices admit_value admits_price
    admits_qty admits_notional above_max check_notional is_vacant stored ensure_level level put new
    push_back link_next end_after map_get map_insert tree_insert prices limit_price add_u64
rests = refl

reached_empty : Reaches slots stores spec fifo_matcher empty_book
reached_empty = opened opens

reached_one : Reaches slots stores spec fifo_matcher one_book
reached_one = added first reached_empty (omega arith) rests

abbrev Agreed : Book → Type 0
Agreed = Agrees slots stores slots-IsSlotMap (IsBTree ℕ) (btree_store-IsStore ℕ)

agreed : Agreed one_book
agreed =
    Reaches-Agrees slots stores slots-IsSlotMap (IsBTree ℕ) (btree_store-IsStore ℕ) spec
      fifo_matcher one_book reached_one

indexed : map_get first.exchange_id one_book.index ≡ some (at_level ask 10000 0)
unfolding map_get text_beq
indexed = refl

-- The order that the book is known to hold.
held : (o : Order) × At slots 0 o (agreed.0 ask 10000) × (o.exchange_id ≡ first.exchange_id)
held = agreed.1.indexed first.exchange_id ask 10000 0 indexed

add_order-IsBook_example :
    Returns
      (λ b'.
        (price : Price) × (k : ℕ) × (restable_price (order b'b' 6).order_type ≡ some price)
        × IsBook slots stores (IsBTree ℕ) (btree_store-IsStore ℕ) b' (
            update slots agreed.0 ask price
              (agreed.0 ask price ++ (k, record (order b'b' 6) { arrival = 2 }) ∷ [])))
      (add_order slots stores one_book (order b'b' 6))
add_order-IsBook_example =
    add_order-IsBook slots slots-IsSlotMap stores (IsBTree ℕ) (btree_store-IsStore ℕ) one_book
      agreed.0 (order b'b' 6) agreed.1 (omega arith)

cancel_order-IsBook_example :
    Cancelled slots slots-IsSlotMap stores
      (IsBTree ℕ)
      (btree_store-IsStore ℕ)
      one_book
      agreed.0
      first.exchange_id
      (at_level ask 10000 0)
cancel_order-IsBook_example =
    cancel_order-IsBook slots slots-IsSlotMap stores (IsBTree ℕ) (btree_store-IsStore ℕ) one_book
      agreed.0 first.exchange_id (at_level ask 10000 0) agreed.1 indexed

get_order-At_example :
    (get_order slots stores one_book held.0.exchange_id ≡ some held.0)
    × (order_location slots stores one_book held.0.exchange_id ≡ some (book ask 10000))
get_order-At_example =
    get_order-At slots stores slots-IsSlotMap (IsBTree ℕ) (btree_store-IsStore ℕ) one_book agreed.0
      ask 10000 0 held.0 agreed.1 held.1

abbrev Agreeing : Book → Contents slots → Type 0
Agreeing = IsBook slots stores (IsBTree ℕ) (btree_store-IsStore ℕ)

empty_found : (s : Side) (p : Price) → find_level ℕ p (levels ℕ empty_book.store s) ≡ none
unfolding find_level levels
empty_found ask p = refl
empty_found bid p = refl

empty_agrees : Agreeing empty_book (λ s p. [])
unfolding map_get levels
empty_agrees = record {
  valid = record { bids_keyed = tt; asks_keyed = tt; bids_sorted = tt; asks_sorted = tt };
  stands = λ s p. rw (empty_found s p) refl;
  indexed = λ id s p k f. absurd (none_not_some f);
  resting = λ s p k o a. absurd a;
  short = λ s p. omega arith;
}

-- The first order, with its arrival and its key, is what the book holds at an ask of 10000.
abbrev pub at_first : ℕ → Contents slots
at_first k = update slots (λ s p. []) ask 10000 ((k, record first { arrival = 1 }) ∷ [])

pub first_agrees : (k : ℕ) × Agreeing one_book (at_first k)
unfolding restable_price
first_agrees =
    let (price, k, e, v) = subst (Returns _) rests (
      add_order-IsBook slots slots-IsSlotMap stores (IsBTree ℕ) (btree_store-IsStore ℕ) empty_book
        (λ s p. []) first empty_agrees (omega arith)) in
    let at : 10000 ≡ price = some_inj e in
    (
      k,
      subst
          (λ (x : ℕ).
            Agreeing one_book
              (update slots (λ s p. []) ask x ((k, record first { arrival = 1 }) ∷ [])))
          (sym at) v,
    )

depth-IsDepth_example :
    (rows : Rows) × (depth slots stores one_book ask 3 ≡ some rows)
    × IsDepth slots ask 3 (at_first first_agrees.0 ask) rows
depth-IsDepth_example =
    depth-IsDepth slots stores (IsBTree ℕ) (btree_store-IsStore ℕ) one_book
      (at_first first_agrees.0) ask 3 first_agrees.1

best_levels-IsBestLevel_example :
    ((o : Option PriceLevel) × (best_bid_level slots stores one_book ≡ some o)
      × IsBestLevel slots bid (at_first first_agrees.0 bid) o)
    × ((o : Option PriceLevel) × (best_ask_level slots stores one_book ≡ some o)
        × IsBestLevel slots ask (at_first first_agrees.0 ask) o)
best_levels-IsBestLevel_example =
    best_levels-IsBestLevel slots stores (IsBTree ℕ) (btree_store-IsStore ℕ) one_book
      (at_first first_agrees.0) first_agrees.1
