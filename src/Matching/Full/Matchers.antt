-- ===== src/Matching/Full/Matchers.antt =====
-- The matchers of src/allocation.rs beside the sweep of src/matching.rs: each keeps the contract on levels of
-- whole lots.
use order_book.Prelude.{ℕ, ◌<◌, u64_mod}
use order_book.Allocation.Contract.Sound.{debug_assert_fills-Clauses}
use order_book.Allocation.Fifo.{fifo_matcher}
use order_book.Allocation.Fifo.Keeps.{fifo_keeps_contract}
use order_book.Allocation.ProRata.{pro_rata_matcher}
use order_book.Allocation.ProRata.Keeps.{pro_rata_keeps_contract}
use order_book.Allocation.TimeProRata.{TimeProRataMatcher, time_pro_rata_matcher}
use order_book.Allocation.TimeProRata.Keeps.{time_pro_rata_keeps_contract}
use order_book.Matching.Full.Sizes.{KeepsContract}

pub fifo_matcher-KeepsContract : (lot : ℕ) → KeepsContract lot fifo_matcher
unfolding fifo_matcher
fifo_matcher-KeepsContract lot available makers now h v d l =
    debug_assert_fills-Clauses _ available makers lot v
      (fifo_keeps_contract available makers now lot h v d l)

pub pro_rata_matcher-KeepsContract :
    (lot : ℕ) → 0 < lot → lot < u64_mod → KeepsContract lot (pro_rata_matcher lot)
unfolding pro_rata_matcher
pro_rata_matcher-KeepsContract lot p k available makers now h v d l =
    debug_assert_fills-Clauses _ available makers lot v
      (pro_rata_keeps_contract lot available makers now p k h v d l)

pub time_pro_rata_matcher-KeepsContract :
    (t : TimeProRataMatcher)
    → 0 < t.lot_size
    → t.lot_size < u64_mod
    → KeepsContract t.lot_size (time_pro_rata_matcher t)
unfolding time_pro_rata_matcher
time_pro_rata_matcher-KeepsContract t p k available makers now h v d l =
    let (fills, e, passes) = time_pro_rata_keeps_contract t available makers now p k h v d l in
    rw e (debug_assert_fills-Clauses fills available makers t.lot_size v passes)
