-- ===== src/Allocation/Contract.antt =====
-- The allocation contract: `debug_assert_fills` of src/matching.rs, which runs on every allocation
-- that the engine makes in a debug build.
pub mod Shares
pub mod Sound
use order_book.Prelude.{
  ℕ, ◌+◌, ◌%◌, ◌<◌, min, Bool, true, false, ◌&&◌, not, List, [], ◌∷◌, Option, none, some, ltb, leb,
  ◌==◌, if◌then◌else◌, get_elem?, length, add_u128,
}
use order_book.Allocation.{Qty, Fill, Maker}

-- `makers.iter().map(|m| u128::from(m.remaining_quantity.base())).sum()`
unfoldable pub level_total : List Maker → ℕ
level_total [] = 0
level_total (m ∷ ms) = add_u128 m.remaining_quantity (level_total ms)

-- `last.is_none_or(|prev| order_index > prev)`
unfoldable pub exceeds : ℕ → Option ℕ → Bool
exceeds i none = true
exceeds i (some prev) = ltb prev i

-- The assertions on one fill; `none` is a position past the end of the level.
unfoldable pub fill_ok : Fill → Option Maker → ℕ → Bool
fill_ok f none lot = false
fill_ok f (some m) lot =
    not (f.quantity == 0) && (leb f.quantity m.remaining_quantity && f.quantity % lot == 0)

-- The loop over the fills: `none` is a failed assertion, otherwise the quantity allocated.
unfoldable pub assert_loop : Option ℕ → ℕ → List Fill → List Maker → ℕ → Option ℕ
assert_loop last allocated [] makers lot = some allocated
assert_loop last allocated (f ∷ fs) makers lot =
    let rest = assert_loop (some f.order_index) (add_u128 allocated f.quantity) fs makers lot in
    if exceeds f.order_index last && fill_ok f (get_elem? makers f.order_index) lot
    then rest
    else none

-- `true` when no assertion fails.
unfoldable pub debug_assert_fills : List Fill → Qty → List Maker → ℕ → Bool
debug_assert_fills fills available makers lot = elim (assert_loop none 0 fills makers lot) [
  | none ↦ false
  | some allocated ↦ allocated == min available (level_total makers)
]
