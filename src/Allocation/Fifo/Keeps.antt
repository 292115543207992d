-- ===== src/Allocation/Fifo/Keeps.antt =====
-- The FIFO allocator keeps the allocation contract.
use order_book.Prelude.{
  ℕ, ◌+◌, ◌-◌, ◌∣◌, ◌<◌, ◌≤◌, subst, sym, min, ◌≡◌, refl, true, List, [], ◌∷◌, arith, sum, u64_mod,
  sub_u64_lem, dvd-min, dvd-sub,
}
use order_book.Allocation.{Qty, Maker}
use order_book.Allocation.Contract.{debug_assert_fills}
use order_book.Allocation.Contract.Shares.{
  collect, Within, IsLots, remaining, IsU64Level, debug_assert_fills-collect, collect_zero,
  collect_pos,
}
use order_book.Allocation.Contract.Sound.{IsFrugal, quantities}
use order_book.Allocation.Fifo.{fifo_loop, allocate, fifo_matcher}

-- What each maker gives to a taker of `left` when they are served in order.
unfoldable pub in_order : ℕ → List Maker → List ℕ
in_order left [] = []
in_order left (m ∷ ms) =
    min left m.remaining_quantity ∷ in_order (left - min left m.remaining_quantity) ms

collect-in_order_done : (i : ℕ) (ms : List Maker) → collect i (in_order 0 ms) ≡ []
unfolding in_order
collect-in_order_done i [] = unfold collect in refl
collect-in_order_done i (m ∷ ms) =
    let e : min 0 m.remaining_quantity ≡ 0 = omega arith in
    rw (e, collect_zero i 0 (in_order 0 ms) refl) (collect-in_order_done (i + 1) ms)

-- The loop is the served shares, made into fills.
pub fifo_loop-eq-collect :
    (i left : ℕ) (ms : List Maker)
    → left < u64_mod
    → fifo_loop i left ms ≡ collect i (in_order left ms)
unfolding fifo_loop in_order
fifo_loop-eq-collect i left [] h = unfold collect in refl
fifo_loop-eq-collect i left (m ∷ ms) h =
    let given = min left m.remaining_quantity in
    ground (
      arith,
      collect-in_order_done (i + 1) ms,
      collect_zero i given (in_order (left - given) ms),
      collect_pos i given (in_order (left - given) ms),
      sub_u64_lem left given,
      fifo_loop-eq-collect (i + 1) left ms,
      fifo_loop-eq-collect (i + 1) (left - given) ms,
    )

in_order-Within : (left : ℕ) (ms : List Maker) → Within (in_order left ms) ms
unfolding in_order
in_order-Within left [] = tt
in_order-Within left (m ∷ ms) =
    (omega arith, in_order-Within (left - min left m.remaining_quantity) ms)

in_order-IsLots :
    (lot left : ℕ) (ms : List Maker)
    → lot ∣ left
    → IsLots lot (remaining ms)
    → IsLots lot (in_order left ms)
unfolding in_order
in_order-IsLots lot left [] h l = tt
in_order-IsLots lot left (m ∷ ms) h l =
    let first = dvd-min lot h l.0 in
    (first, in_order-IsLots lot (left - min left m.remaining_quantity) ms (dvd-sub lot h first) l.1)

sum-in_order : (left : ℕ) (ms : List Maker) → sum (in_order left ms) ≡ min left (sum (remaining ms))
unfolding in_order
sum-in_order left [] = omega arith
sum-in_order left (m ∷ ms) = omega (arith, sum-in_order (left - min left m.remaining_quantity) ms)

-- On a level of u64 quantities in whole lots, a taker of whole lots gets fills from the FIFO
-- matcher that pass every assertion of the engine's contract check, whatever the time is.
pub fifo_keeps_contract :
    (available : Qty) (makers : List Maker) (now lot : ℕ)
    → available < u64_mod
    → IsU64Level makers
    → lot ∣ available
    → IsLots lot (remaining makers)
    → debug_assert_fills (allocate available makers now) available makers lot ≡ true
unfolding allocate
fifo_keeps_contract available makers now lot h v d l =
    rw (fifo_loop-eq-collect 0 available makers h) (
      debug_assert_fills-collect makers lot available (in_order available makers) v
        (in_order-Within available makers) (in_order-IsLots lot available makers d l)
        (sum-in_order available makers))

collect-sum : (i : ℕ) (ss : List ℕ) → sum (quantities (collect i ss)) ≡ sum ss
unfolding collect
collect-sum i [] = refl
collect-sum i (s ∷ ss) = ground (arith, collect-sum (i + 1) ss)

in_order-le : (left : ℕ) (ms : List Maker) → sum (in_order left ms) ≤ left
unfolding in_order
in_order-le left [] = omega arith
in_order-le left (m ∷ ms) = omega (arith, in_order-le (left - min left m.remaining_quantity) ms)

-- The FIFO matcher never gives out more than there is.
pub fifo_matcher-IsFrugal : IsFrugal fifo_matcher
unfolding fifo_matcher allocate
fifo_matcher-IsFrugal available makers now h =
    subst (λ fs. sum (quantities fs) ≤ available) (sym (fifo_loop-eq-collect 0 available makers h))
      (omega (arith, collect-sum 0 (in_order available makers), in_order-le available makers))
