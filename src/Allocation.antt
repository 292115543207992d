-- ===== src/Allocation.antt =====
-- src/allocation.rs: what an allocation policy sees, and the interface that every policy fills.
pub mod Contract
mod Tests
pub mod Fifo
pub mod ProRata
pub mod TimeProRata
use order_book.Prelude.{ℕ, List, Option}
pub use order_book.Instrument.{Qty}

-- One resting order's share of a taker, by its position in the level.
pub record Fill : Type 0 where
  pub order_index : ℕ
  pub quantity : Qty

-- One resting order as an allocator sees it.
pub record Maker : Type 0 where
  pub remaining_quantity : Qty
  pub arrival : ℕ

-- The trait `MatchingAlgorithm`: `allocate available makers now` and the lot that it floors to.
pub record MatchingAlgorithm : Type 0 where
  pub allocate : Qty → List Maker → ℕ → List Fill
  pub lot_size : Option ℕ
