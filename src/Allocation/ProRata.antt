-- ===== src/Allocation/ProRata.antt =====
-- `ProRataMatcher` of src/allocation.rs: shares in proportion to size, floored to whole lots, and
-- the leftover lots by time priority.
pub mod Sweep
pub mod Floor
pub mod Keeps
use order_book.Prelude.{
  ℕ, ◌+◌, ◌/◌, List, [], ◌∷◌, Option, none, some, ltb, leb, ◌==◌, if◌then◌else◌, map, add_u64,
  sub_u64, mul_u128, as_u64,
}
use order_book.Allocation.{Qty, Fill, Maker, MatchingAlgorithm}
use order_book.Allocation.Contract.{level_total}
use order_book.Allocation.Contract.Shares.{collect}

-- `.enumerate().filter(|(_, m)| !m.remaining_quantity.is_zero()).map(Fill)` from position `i` on.
unfoldable pub take_whole : ℕ → List Maker → List Fill
take_whole i [] = []
take_whole i (m ∷ ms) =
    let rest = take_whole (i + 1) ms in
    if m.remaining_quantity == 0
    then rest
    else record { order_index = i; quantity = m.remaining_quantity } ∷ rest

-- `((exact / lot) * lot) as u64` with `exact = available * remaining / total` in u128.
unfoldable pub floor_share : ℕ → ℕ → ℕ → Maker → ℕ
floor_share available total lot m =
    let exact = mul_u128 available m.remaining_quantity / total in
    as_u64 (mul_u128 (exact / lot) lot)

-- `shares.iter().sum::<u64>()`
unfoldable pub sum_u64 : List ℕ → ℕ
sum_u64 [] = 0
sum_u64 (s ∷ ss) = add_u64 s (sum_u64 ss)

-- The remainder pass over makers and their shares: one lot to each maker with a lot of headroom,
-- until nothing is left. Returns the shares and what is left.
unfoldable pub sweep : ℕ → ℕ → List Maker → List ℕ → List ℕ × ℕ
sweep lot left [] shares = (shares, left)
sweep lot left (m ∷ ms) [] = ([], left)
sweep lot left (m ∷ ms) (s ∷ ss) =
    let given = sweep lot (sub_u64 left lot) ms ss in
    let passed = sweep lot left ms ss in
    if left == 0
    then (s ∷ ss, left)
    else if leb lot (sub_u64 m.remaining_quantity s)
    then (add_u64 s lot ∷ given.0, given.1)
    else (s ∷ passed.0, passed.1)

-- The shares that the two passes settle on.
unfoldable pub settle : ℕ → ℕ → List Maker → List ℕ × ℕ
unfolding floor_share sum_u64 sweep level_total
settle lot available makers =
    let shares = map (floor_share available (level_total makers) lot) makers in
    sweep lot (sub_u64 available (sum_u64 shares)) makers shares

unfoldable pub allocate : ℕ → Qty → List Maker → ℕ → List Fill
allocate lot available makers now =
    if leb (level_total makers) available
    then take_whole 0 makers
    else collect 0 (settle lot available makers).0

-- `ProRataMatcher::new`; `none` is a failed assertion.
unfoldable pub new : ℕ → Option ℕ
new lot_size = if ltb 0 lot_size then some lot_size else none

-- `ProRataMatcher { lot_size }` as the trait's operations.
unfoldable pub pro_rata_matcher : ℕ → MatchingAlgorithm
pro_rata_matcher lot = record { allocate = allocate lot; lot_size = some lot }
