-- ===== src/Allocation/Fifo.antt =====
-- `FifoMatcher` of src/allocation.rs: time priority within a level.
pub mod Keeps
pub mod Priority
use order_book.Prelude.{ℕ, ◌+◌, min, List, [], ◌∷◌, none, ◌==◌, if◌then◌else◌, sub_u64}
use order_book.Allocation.{Qty, Fill, Maker, MatchingAlgorithm}

-- The loop from position `i` on, with `left` still to place.
unfoldable pub fifo_loop : ℕ → Qty → List Maker → List Fill
fifo_loop i left [] = []
fifo_loop i left (maker ∷ makers) =
    let skipped = fifo_loop (i + 1) left makers in
    let fill_quantity = min left maker.remaining_quantity in
    let rest = fifo_loop (i + 1) (sub_u64 left fill_quantity) makers in
    if left == 0
    then []
    else if maker.remaining_quantity == 0
    then skipped
    else record { order_index = i; quantity = fill_quantity } ∷ rest

unfoldable pub allocate : Qty → List Maker → ℕ → List Fill
unfolding fifo_loop
allocate available makers now = fifo_loop 0 available makers

unfoldable pub fifo_matcher : MatchingAlgorithm
fifo_matcher = record { allocate = allocate; lot_size = none }
