-- ===== src/Allocation/Tests.antt =====
-- The allocators on concrete levels: tests, and the theorems at inputs that meet their hypotheses.
use order_book.Prelude.{
  ℕ, ◌∣◌, ◌≡◌, refl, true, List, [], ◌∷◌, some, arith, add_u64, sub_u64, add_u128, mul_u128, as_u64,
  dvd_of_mod-eq-zero,
}
use order_book.Allocation.{Fill, Maker}
use order_book.Allocation.Contract.{level_total, assert_loop, debug_assert_fills, exceeds, fill_ok}
use order_book.Allocation.Contract.Shares.{IsU64Level, IsLots, remaining, collect}
use order_book.Allocation.Contract.Sound.{Clauses, debug_assert_fills-Clauses}
use order_book.Allocation.Fifo
use order_book.Allocation.Fifo.Priority.{by_time, fifo_allocate-by_time}
use order_book.Allocation.Fifo.Keeps.{fifo_keeps_contract}
use order_book.Allocation.ProRata
use order_book.Allocation.ProRata.Keeps.{pro_rata_keeps_contract}
use order_book.Allocation.TimeProRata.{TimeProRataMatcher}
use order_book.Allocation.TimeProRata
use order_book.Allocation.TimeProRata.Keeps.{time_pro_rata_keeps_contract}

abbrev maker : ℕ → ℕ → Maker
maker q arrival = record { remaining_quantity = q; arrival = arrival }

abbrev fill : ℕ → ℕ → Fill
fill i q = record { order_index = i; quantity = q }

-- The level of the comment on `ProRataMatcher`, with an empty maker between.
abbrev level : List Maker
level = maker 10 1 ∷ maker 0 2 ∷ maker 20 3 ∷ []

abbrev timed : TimeProRataMatcher
timed = record { lot_size = 10; tick = 1; max_age_ticks = 65535 }

fifo_fills : Fifo.allocate 20 level 4 ≡ fill 0 10 ∷ fill 2 10 ∷ []
unfolding Fifo.allocate sub_u64
fifo_fills = refl

pro_rata_fills : ProRata.allocate 10 20 level 4 ≡ fill 0 10 ∷ fill 2 10 ∷ []
unfolding ProRata.allocate ProRata.settle ProRata.sweep ProRata.floor_share ProRata.sum_u64 collect
    level_total add_u64 sub_u64 add_u128 mul_u128 as_u64
pro_rata_fills = refl

level-IsU64Level : IsU64Level level
level-IsU64Level = omega arith

whole : 10 ∣ 20
whole = dvd_of_mod-eq-zero 10 refl

level-IsLots : IsLots 10 (remaining level)
level-IsLots = (dvd_of_mod-eq-zero 10 refl, (dvd_of_mod-eq-zero 10 refl, (whole, tt)))

fifo_contract_example : debug_assert_fills (Fifo.allocate 20 level 4) 20 level 10 ≡ true
fifo_contract_example =
    fifo_keeps_contract 20 level 4 10 (omega arith) level-IsU64Level whole level-IsLots

pro_rata_contract_example : debug_assert_fills (ProRata.allocate 10 20 level 4) 20 level 10 ≡ true
pro_rata_contract_example =
    pro_rata_keeps_contract 10 20 level 4 (omega arith) (omega arith) (omega arith) level-IsU64Level
      whole level-IsLots

time_pro_rata_contract_example :
    (fills : List Fill) × (TimeProRata.allocate timed 20 level 4 ≡ some fills)
    × (debug_assert_fills fills 20 level 10 ≡ true)
time_pro_rata_contract_example =
    time_pro_rata_keeps_contract timed 20 level 4 (omega arith) (omega arith) (omega arith)
      level-IsU64Level whole level-IsLots

contract-Clauses_example : Clauses (fill 0 10 ∷ fill 2 10 ∷ []) 20 level 10
unfolding debug_assert_fills assert_loop exceeds fill_ok level_total add_u128
contract-Clauses_example =
    debug_assert_fills-Clauses (fill 0 10 ∷ fill 2 10 ∷ []) 20 level 10 level-IsU64Level refl

fifo_allocate-by_time_example : Fifo.allocate 20 level 4 ≡ collect 0 (by_time 20 0 level)
fifo_allocate-by_time_example = fifo_allocate-by_time 20 level 4 (omega arith)
