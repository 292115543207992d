-- ===== src/Storage/HashMap.antt =====
-- `HashMapStore` of src/storage.rs: a hash map of levels for each side, and a heap of its prices.
mod Heap
mod Sides
pub mod Refines
use order_book.Prelude.{
  ℕ, ◌==◌, List, [], ◌∷◌, Option, none, some, Bool, Result, ok, map, if◌then◌else◌, map_get,
  map_insert, map_remove, nat_eq,
}
use order_book.Side.{Side, ask, bid}
use order_book.Instrument.{InstrumentSpec, Price}
use order_book.Storage.{StoreError, BookLevel, OrderBookStore}
use order_book.Storage
use order_book.Storage.Ladder.{better}

-- `BinaryHeap::peek` of the prices in any order: the greatest price of the bids, and of the asks, as
-- they are under `Reverse`, the least.
unfoldable pub peek : Side → List Price → Option Price
peek side [] = none
peek side (p ∷ ps) = elim (peek side ps) [
  | none ↦ some p
  | some q ↦ some (if better side q p then q else p)
]

-- `retain(|el| el != &price)`
unfoldable pub retain_prices : Price → List Price → List Price
retain_prices price [] = []
retain_prices price (p ∷ ps) =
    let rest = retain_prices price ps in if p == price then rest else p ∷ rest

module _ (Key : Type 0) where
  pub record HashMapStore : Type 0 where
    pub bids : List (Price × BookLevel Key)
    pub asks : List (Price × BookLevel Key)
    pub bids_index : List Price
    pub asks_index : List Price

  abbrev pub side_levels : HashMapStore → Side → List (Price × BookLevel Key)
  side_levels s ask = s.asks
  side_levels s bid = s.bids

  abbrev pub side_index : HashMapStore → Side → List Price
  side_index s ask = s.asks_index
  side_index s bid = s.bids_index

  -- `sort_unstable_by_key`, on the price or its `Reverse`; no two levels of a side share a price.
  unfoldable pub insert_sorted : Side → BookLevel Key → List (BookLevel Key) → List (BookLevel Key)
  insert_sorted side m [] = m ∷ []
  insert_sorted side m (l ∷ ls) =
      if better side m.price l.price then m ∷ l ∷ ls else l ∷ insert_sorted side m ls

  unfoldable pub sort_levels : Side → List (BookLevel Key) → List (BookLevel Key)
  sort_levels side [] = []
  sort_levels side (l ∷ ls) = insert_sorted side l (sort_levels side ls)

  unfoldable pub levels : HashMapStore → Side → List (BookLevel Key)
  levels s side = sort_levels side (map (λ e. e.1) (side_levels s side))

  unfoldable pub try_new : InstrumentSpec → Result StoreError HashMapStore
  try_new spec = ok (record { bids = []; asks = []; bids_index = []; asks_index = [] })

  unfoldable pub level : HashMapStore → Side → Price → Option (BookLevel Key)
  level s side price = map_get price (side_levels s side)

  unfoldable pub put : HashMapStore → Side → Price → BookLevel Key → HashMapStore
  put s ask price l = record s { asks = map_insert price l s.asks }
  put s bid price l = record s { bids = map_insert price l s.bids }

  -- `Entry::Vacant`: the price goes on the heap and a new level into the map.
  unfoldable pub insert_vacant : HashMapStore → Side → Price → HashMapStore
  insert_vacant s ask price = record s {
    asks_index = price ∷ s.asks_index;
    asks = map_insert price (Storage.new price ask) s.asks;
  }
  insert_vacant s bid price = record s {
    bids_index = price ∷ s.bids_index;
    bids = map_insert price (Storage.new price bid) s.bids;
  }

  unfoldable pub ensure_level : HashMapStore → Side → Price → Result StoreError HashMapStore
  ensure_level s side price = elim (level s side price) [
    | none ↦ ok (insert_vacant s side price)
    | some l ↦ ok s
  ]

  unfoldable pub best_level : HashMapStore → Side → Option (BookLevel Key)
  best_level s side = elim (peek side (side_index s side)) [
    | none ↦ none
    | some price ↦ map_get price (side_levels s side)
  ]

  unfoldable pub remove_level : HashMapStore → Side → Price → HashMapStore × Option (BookLevel Key)
  remove_level s ask price = (
    record s { asks_index = retain_prices price s.asks_index; asks = map_remove price s.asks },
    map_get price s.asks,
  )
  remove_level s bid price = (
    record s { bids_index = retain_prices price s.bids_index; bids = map_remove price s.bids },
    map_get price s.bids,
  )

  abbrev pub hash_map_store : OrderBookStore Key
  hash_map_store = record {
    Store = HashMapStore;
    try_new = try_new;
    ensure_level = ensure_level;
    level = level;
    put = put;
    best_level = best_level;
    remove_level = remove_level;
    levels = levels;
  }
