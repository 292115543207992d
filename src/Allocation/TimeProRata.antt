-- ===== src/Allocation/TimeProRata.antt =====
-- `TimeProRataMatcher` of src/allocation.rs: shares in proportion to size times age, filled like
-- water: makers that their share overruns are capped, and the rest is apportioned again.
pub mod Weights
pub mod Cap
pub mod Commit
pub mod Flow
pub mod Keeps
use order_book.Prelude.{
  ℕ, zero, suc, ◌+◌, ◌-◌, ◌*◌, ◌/◌, ◌^◌, min, max, List, [], ◌∷◌, Option, none, some, ltb, leb,
  ◌==◌, if◌then◌else◌, map, length, Bool, ◌&&◌, u64_mod, add_u128, sub_u128, mul_u128, as_u64,
}
use mathlib.Core.Option
use order_book.Allocation.{Qty, Fill, Maker, MatchingAlgorithm}
use order_book.Allocation.Contract.{level_total}
use order_book.Allocation.Contract.Shares.{collect}
use order_book.Allocation.ProRata.{sweep, take_whole}

pub record TimeProRataMatcher : Type 0 where
  pub lot_size : ℕ
  pub tick : ℕ
  pub max_age_ticks : ℕ

-- `TimeProRataMatcher::new`, `with_tick` and `with_max_age`; `none` is a failed assertion.
unfoldable pub new : ℕ → Option TimeProRataMatcher
new lot_size =
    if ltb 0 lot_size
    then some (record { lot_size = lot_size; tick = 1; max_age_ticks = 65535 })
    else none

unfoldable pub with_tick : TimeProRataMatcher → ℕ → Option TimeProRataMatcher
with_tick t tick = if ltb 0 tick then some (record t { tick = tick }) else none

unfoldable pub with_max_age : TimeProRataMatcher → ℕ → Option TimeProRataMatcher
with_max_age t max_age_ticks =
    if ltb 0 max_age_ticks && leb max_age_ticks (u64_mod - 1)
    then some (record t { max_age_ticks = max_age_ticks })
    else none

-- `(now.saturating_sub(arrival) / tick).clamp(1, max_age_ticks)`
unfoldable pub age_ticks : TimeProRataMatcher → Maker → ℕ → ℕ
age_ticks t m now = min (max ((now - m.arrival) / t.tick) 1) t.max_age_ticks

-- The weight before it is scaled.
unfoldable pub raw : TimeProRataMatcher → ℕ → Maker → ℕ
raw t now m = mul_u128 m.remaining_quantity (age_ticks t m now)

-- `makers.iter().map(raw).max().unwrap_or(0)`
unfoldable pub max_raw : TimeProRataMatcher → ℕ → List Maker → ℕ
max_raw t now [] = 0
max_raw t now (m ∷ ms) = max (raw t now m) (max_raw t now ms)

-- The position of the highest bit of a positive number, by halving; `fuel` bounds the bits.
unfoldable pub ilog2 : ℕ → ℕ → ℕ
ilog2 zero x = 0
ilog2 (suc fuel) x = let higher = ilog2 fuel (x / 2) in if ltb x 2 then 0 else suc higher

-- `max.checked_ilog2().map_or(0, |bits| bits.saturating_sub(63))` of a u128.
unfoldable pub scale_shift : ℕ → ℕ
scale_shift x = if x == 0 then 0 else ilog2 128 x - 63

-- Weights scaled by a common power of two so that each fits u64, and at least one.
unfoldable pub weights : TimeProRataMatcher → List Maker → ℕ → List ℕ
weights t makers now =
    let shift = scale_shift (max_raw t now makers) in
    map (λ m. max (raw t now m / 2 ^ shift) 1) makers

-- What the loop keeps at one position of `makers`, `weights` and `shares`.
pub record Row : Type 0 where
  pub maker : Maker
  pub weight : ℕ
  pub share : ℕ

unfoldable pub start_rows : List Maker → List ℕ → List Row
start_rows [] ws = []
start_rows (m ∷ ms) [] = []
start_rows (m ∷ ms) (w ∷ ws) = record { maker = m; weight = w; share = 0 } ∷ start_rows ms ws

unfoldable pub contending : Row → Bool
contending r = ltb r.share r.maker.remaining_quantity

unfoldable pub weight_total : List Row → ℕ
unfolding contending
weight_total [] = 0
weight_total (r ∷ rs) =
    let rest = weight_total rs in if contending r then add_u128 r.weight rest else rest

-- One row of the capping pass: the row, and what it takes from the pool.
unfoldable pub cap_row : ℕ → ℕ → Row → Row × ℕ
unfolding contending
cap_row pool total r =
    if contending r
    then if leb r.maker.remaining_quantity (mul_u128 pool r.weight / total)
      then (record r { share = r.maker.remaining_quantity }, r.maker.remaining_quantity)
      else (r, 0)
    else (r, 0)

unfoldable pub cap_pass : ℕ → ℕ → List Row → List Row × ℕ
cap_pass pool total [] = ([], 0)
cap_pass pool total (r ∷ rs) =
    let (r', taken) = cap_row pool total r in
    let (rs', capped) = cap_pass pool total rs in (r' ∷ rs', add_u128 taken capped)

-- One row of the committing pass: the row, and what it takes from the pool.
unfoldable pub commit_row : ℕ → ℕ → ℕ → Row → Row × ℕ
unfolding contending
commit_row lot pool total r =
    let share = mul_u128 (mul_u128 pool r.weight / total / lot) lot in
    if contending r then (record r { share = as_u64 share }, share) else (r, 0)

unfoldable pub commit_pass : ℕ → ℕ → ℕ → List Row → List Row × ℕ
commit_pass lot pool total [] = ([], 0)
commit_pass lot pool total (r ∷ rs) =
    let (r', taken) = commit_row lot pool total r in
    let (rs', allocated) = commit_pass lot pool total rs in (r' ∷ rs', add_u128 taken allocated)

-- The loop. Every round but the last caps a maker, so the number of makers is fuel enough; `none`
-- is a loop that has run out of fuel.
unfoldable pub water_fill : ℕ → ℕ → ℕ → List Row → Option (List Row × ℕ)
water_fill zero lot pool rows = none
water_fill (suc fuel) lot pool rows =
    let total = weight_total rows in
    let (rows', capped) = cap_pass pool total rows in
    let again = water_fill fuel lot (sub_u128 pool capped) rows' in
    let (last, allocated) = commit_pass lot pool total rows in
    if total == 0
    then some (rows, pool)
    else if ltb 0 capped
    then again
    else some (last, sub_u128 pool allocated)

abbrev pub makers_of : List Row → List Maker
makers_of = map (λ r. r.maker)

abbrev pub shares_of : List Row → List ℕ
shares_of = map (λ r. r.share)

-- The shares after the loop and the remainder pass.
unfoldable pub fill_shares : TimeProRataMatcher → ℕ → List Maker → ℕ → Option (List ℕ)
fill_shares t available makers now =
    elim (water_fill (suc (length makers)) t.lot_size available
      (start_rows makers (weights t makers now))) [
        | none ↦ none
        | some (rows, pool) ↦ some (sweep t.lot_size (as_u64 pool) makers (shares_of rows)).0
      ]

-- `none` is a run of the loop that does not end.
unfoldable pub allocate : TimeProRataMatcher → Qty → List Maker → ℕ → Option (List Fill)
allocate t available makers now =
    if leb (level_total makers) available
    then some (take_whole 0 makers)
    else Option.map (collect 0) (fill_shares t available makers now)

-- `TimeProRataMatcher` as the trait's operations.
unfoldable pub time_pro_rata_matcher : TimeProRataMatcher → MatchingAlgorithm
time_pro_rata_matcher t = record {
  allocate = λ available makers now. Option.get_or (allocate t available makers now) [];
  lot_size = some t.lot_size;
}
