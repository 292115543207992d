-- ===== src/Storage/BTree.antt =====
-- `BTreeStore` of src/storage.rs: an ordered map of levels for each side.
pub mod Refines
use order_book.Prelude.{
  ℕ, List, [], ◌∷◌, Option, none, some, Bool, Result, ok, err, map, ltb, map_get, map_remove,
  nat_eq, tree_insert, tree_first, tree_last,
}
use order_book.Side.{Side, ask, bid}
use order_book.Instrument.{InstrumentSpec, Price}
use order_book.Storage.{StoreError, BookLevel, OrderBookStore}
use order_book.Storage

module _ (Key : Type 0) where
  pub record BTreeStore : Type 0 where
    pub bids : List (Price × BookLevel Key)
    pub asks : List (Price × BookLevel Key)

  -- `Reverse<Price>`
  abbrev pub above : ℕ → ℕ → Bool
  above a b = ltb b a

  unfoldable pub try_new : InstrumentSpec → Result StoreError BTreeStore
  try_new spec = ok (record { bids = []; asks = [] })

  abbrev pub side_levels : BTreeStore → Side → List (Price × BookLevel Key)
  side_levels s ask = s.asks
  side_levels s bid = s.bids

  unfoldable pub level : BTreeStore → Side → Price → Option (BookLevel Key)
  level s side price = map_get price (side_levels s side)

  unfoldable pub put : BTreeStore → Side → Price → BookLevel Key → BTreeStore
  put s ask price l = record s { asks = tree_insert ltb price l s.asks }
  put s bid price l = record s { bids = tree_insert above price l s.bids }

  unfoldable pub ensure_level : BTreeStore → Side → Price → Result StoreError BTreeStore
  ensure_level s side price = elim (level s side price) [
    | none ↦ ok (put s side price (Storage.new price side))
    | some l ↦ ok s
  ]

  unfoldable pub best_level : BTreeStore → Side → Option (BookLevel Key)
  best_level s side = elim (tree_first (side_levels s side)) [ none ↦ none | some e ↦ some e.1 ]

  unfoldable pub remove_level : BTreeStore → Side → Price → BTreeStore × Option (BookLevel Key)
  remove_level s ask price = (record s { asks = map_remove price s.asks }, map_get price s.asks)
  remove_level s bid price = (record s { bids = map_remove price s.bids }, map_get price s.bids)

  unfoldable pub levels : BTreeStore → Side → List (BookLevel Key)
  levels s side = map (λ e. e.1) (side_levels s side)

  abbrev pub btree_store : OrderBookStore Key
  btree_store = record {
    Store = BTreeStore;
    try_new = try_new;
    ensure_level = ensure_level;
    level = level;
    put = put;
    best_level = best_level;
    remove_level = remove_level;
    levels = levels;
  }
