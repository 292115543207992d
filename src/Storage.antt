-- ===== src/Storage.antt =====
-- src/storage.rs: levels, and the interface that a store of levels fills.
pub mod BTree
pub mod HashMap
pub mod Ladder
pub mod TickLadder
mod Tests
use order_book.Prelude.{ℕ, ◌≡◌, ◌<◌, ◌==◌, List, Option, none, some, Bool, Result, length}
use order_book.Side.{Side}
use order_book.Instrument.{InstrumentSpec, Price}
use order_book.OrderQueue.{LevelQueue}

pub data StoreError : Type 0 where
  unbounded_price_range price_range_too_large price_outside_range : StoreError

pub record BookLevel (Key : Type 0) : Type 0 where
  pub price : Price
  pub side : Side
  pub queue : LevelQueue Key

unfoldable pub new : {Key : Type 0} → Price → Side → BookLevel Key
new price side = record {
  price = price;
  side = side;
  queue = record { head = none; tail = none; len = 0 };
}

unfoldable pub is_empty : {Key : Type 0} → BookLevel Key → Bool
is_empty level = level.queue.len == 0

unfoldable pub order_count : {Key : Type 0} → BookLevel Key → ℕ
order_count level = level.queue.len

-- The trait `OrderBookStore`. A `&mut BookLevel` is read by `level` or `best_level`, and `put` is
-- the write through it.
pub record OrderBookStore (Key : Type 0) : Type 1 where
  pub Store : Type 0
  pub try_new : InstrumentSpec → Result StoreError Store
  pub ensure_level : Store → Side → Price → Result StoreError Store
  pub level : Store → Side → Price → Option (BookLevel Key)
  pub put : Store → Side → Price → BookLevel Key → Store
  pub best_level : Store → Side → Option (BookLevel Key)
  pub remove_level : Store → Side → Price → Store × Option (BookLevel Key)
  pub levels : Store → Side → List (BookLevel Key)

-- The default method `best_price`.
unfoldable pub best_price :
    {Key : Type 0} (stores : OrderBookStore Key) → stores.Store → Side → Option Price
best_price stores s side = elim (stores.best_level s side) [
  | none ↦ none
  | some level ↦ some level.price
]
