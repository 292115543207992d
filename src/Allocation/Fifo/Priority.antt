-- ===== src/Allocation/Fifo/Priority.antt =====
-- The FIFO allocator of src/allocation.rs in closed form: time priority.
use order_book.Prelude.{ℕ, ◌+◌, ◌-◌, ◌<◌, min, ◌≡◌, refl, ap, ◌∙◌, List, [], ◌∷◌, arith, u64_mod}
use order_book.Allocation.{Qty, Maker}
use order_book.Allocation.Contract.Shares.{collect}
use order_book.Allocation.Fifo.{allocate}
use order_book.Allocation.Fifo.Keeps.{in_order, fifo_loop-eq-collect}

-- What each maker gets when those before it have `earlier` in all.
abbrev pub by_time : Qty → ℕ → List Maker → List ℕ
by_time available earlier [] = []
by_time available earlier (m ∷ ms) =
    min m.remaining_quantity (available - earlier)
    ∷ by_time available (earlier + m.remaining_quantity) ms

in_order-by_time :
    (available earlier : ℕ) (ms : List Maker)
    → in_order (available - earlier) ms ≡ by_time available earlier ms
unfolding in_order
in_order-by_time available earlier [] = refl
in_order-by_time available earlier (m ∷ ms) =
    let q = m.remaining_quantity in
    let left : available - earlier - min (available - earlier) q ≡ available - (earlier + q) =
      omega arith in
    let same : min (available - earlier) q ≡ min q (available - earlier) = omega arith in
    rw (left, same)
      (ap (λ ss. min q (available - earlier) ∷ ss) (in_order-by_time available (earlier + q) ms))

-- A u64 taker gives each maker the smaller of what the maker has and what the makers before it
-- leave of the taker, and the makers that get nothing have no fill.
pub fifo_allocate-by_time :
    (available : Qty) (makers : List Maker) (now : ℕ)
    → available < u64_mod
    → allocate available makers now ≡ collect 0 (by_time available 0 makers)
unfolding allocate
fifo_allocate-by_time available makers now h =
    let whole : available ≡ available - 0 = omega arith in
    fifo_loop-eq-collect 0 available makers h
    ∙ ap (λ a. collect 0 (in_order a makers)) whole
    ∙ ap (collect 0) (in_order-by_time available 0 makers)
