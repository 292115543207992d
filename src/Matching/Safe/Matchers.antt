-- ===== src/Matching/Safe/Matchers.antt =====
-- The matchers of src/allocation.rs beside the sweep of src/matching.rs: their fills point into the level.
use order_book.Prelude.{
  ℕ, zero, suc, ◌+◌, ◌≤◌, ◌≡◌, refl, ap, ◌∙◌, List, [], ◌∷◌, some, arith, length, map, All-map,
  Bool-cases, Option-cases, inl, inr, ◌==◌, leb, ltb, sub_u64, min, none_not_some, some_inj, sym,
  sub_u128, as_u64, length-map,
}
use mathlib.Core.Option
use order_book.Instrument.{Qty}
use order_book.Allocation.{Fill, Maker}
use order_book.Allocation.Contract.{level_total}
use order_book.Allocation.Contract.Shares.{collect}
use order_book.Allocation.Fifo.{fifo_loop, fifo_matcher}
use order_book.Allocation.Fifo
use order_book.Allocation.ProRata.{take_whole, floor_share, sweep, settle, pro_rata_matcher}
use order_book.Allocation.ProRata
use order_book.Allocation.TimeProRata.{
  TimeProRataMatcher, Row, start_rows, cap_pass, commit_pass, water_fill, shares_of, fill_shares,
  weights, weight_total, time_pro_rata_matcher,
}
use order_book.Allocation.TimeProRata
use order_book.Matching.Safe.Fills.{InLevel}
use order_book.Matching.Safe.Level.{IsInRange}

InLevel-le : (n m : ℕ) (fills : List Fill) → n ≤ m → InLevel n fills → InLevel m fills
InLevel-le n m fills le = All-map (λ f h. omega (arith, h, le)) fills

from_first : (n : ℕ) (fills : List Fill) → InLevel (0 + n) fills → InLevel n fills
from_first n fills = InLevel-le (0 + n) n fills (omega arith)

fifo_loop-InLevel :
    (i left : ℕ) (makers : List Maker) → InLevel (i + length makers) (fifo_loop i left makers)
unfolding fifo_loop
fifo_loop-InLevel i left [] = tt
fifo_loop-InLevel i left (m ∷ ms) =
    let later : (next : ℕ) → InLevel (i + suc (length ms)) (fifo_loop (i + 1) next ms) = λ next.
      InLevel-le (i + 1 + length ms) (i + suc (length ms)) (fifo_loop (i + 1) next ms) (omega arith)
        (fifo_loop-InLevel (i + 1) next ms) in
    elim (Bool-cases (left == 0)) [
      | inl e ↦ rw e tt
      | inr e ↦ elim (Bool-cases (m.remaining_quantity == 0)) [
        | inl e' ↦ rw (e, e') (later left)
        | inr e' ↦ rw (e, e') (omega arith, later (sub_u64 left (min left m.remaining_quantity)))
      ]
    ]

take_whole-InLevel :
    (i : ℕ) (makers : List Maker) → InLevel (i + length makers) (take_whole i makers)
unfolding take_whole
take_whole-InLevel i [] = tt
take_whole-InLevel i (m ∷ ms) =
    let later =
      InLevel-le (i + 1 + length ms) (i + suc (length ms)) (take_whole (i + 1) ms) (omega arith)
        (take_whole-InLevel (i + 1) ms) in
    elim (Bool-cases (m.remaining_quantity == 0)) [
      | inl e ↦ rw e later
      | inr e ↦ rw e (omega arith, later)
    ]

collect-InLevel : (i : ℕ) (shares : List ℕ) → InLevel (i + length shares) (collect i shares)
unfolding collect
collect-InLevel i [] = tt
collect-InLevel i (s ∷ ss) =
    let later =
      InLevel-le (i + 1 + length ss) (i + suc (length ss)) (collect (i + 1) ss) (omega arith)
        (collect-InLevel (i + 1) ss) in
    elim (Bool-cases (ltb 0 s)) [ inl e ↦ rw e (omega arith, later) | inr e ↦ rw e later ]

-- The remainder pass has a share for every share.
length-sweep :
    (lot left : ℕ) (makers : List Maker) (shares : List ℕ)
    → length (sweep lot left makers shares).0 ≡ length shares
unfolding sweep
length-sweep lot left [] ss = refl
length-sweep lot left (m ∷ ms) [] = refl
length-sweep lot left (m ∷ ms) (s ∷ ss) =
    ground (arith, length-sweep lot left ms ss, length-sweep lot (sub_u64 left lot) ms ss)

-- What is shared out lies in a level of so many makers.
shared-InLevel :
    (lot left n : ℕ) (makers : List Maker) (shares : List ℕ)
    → length shares ≤ n
    → InLevel n (collect 0 (sweep lot left makers shares).0)
shared-InLevel lot left n makers shares le =
    InLevel-le (0 + length (sweep lot left makers shares).0) n _
      (omega (arith, length-sweep lot left makers shares, le)) (collect-InLevel 0 _)

length-cap_pass :
    (pool total : ℕ) (rows : List Row) → length (cap_pass pool total rows).0 ≡ length rows
unfolding cap_pass
length-cap_pass pool total [] = refl
length-cap_pass pool total (r ∷ rs) = ap suc (length-cap_pass pool total rs)

length-commit_pass :
    (lot pool total : ℕ) (rows : List Row)
    → length (commit_pass lot pool total rows).0 ≡ length rows
unfolding commit_pass
length-commit_pass lot pool total [] = refl
length-commit_pass lot pool total (r ∷ rs) = ap suc (length-commit_pass lot pool total rs)

length-start_rows :
    (makers : List Maker) (ws : List ℕ) → length (start_rows makers ws) ≤ length makers
unfolding start_rows
length-start_rows [] ws = omega arith
length-start_rows (m ∷ ms) [] = omega arith
length-start_rows (m ∷ ms) (w ∷ ws) = omega (arith, length-start_rows ms ws)

length-shares_of : (rows : List Row) → length (shares_of rows) ≡ length rows
length-shares_of [] = refl
length-shares_of (r ∷ rs) = ap suc (length-shares_of rs)

-- The loop keeps the number of its rows.
length-water_fill :
    (fuel lot pool : ℕ) (rows : List Row) (r : List Row × ℕ)
    → water_fill fuel lot pool rows ≡ some r
    → length r.0 ≡ length rows
unfolding water_fill
length-water_fill zero lot pool rows r h = absurd (none_not_some h)
length-water_fill (suc fuel) lot pool rows r h =
    let total = weight_total rows in
    let capped = cap_pass pool total rows in
    elim (Bool-cases (total == 0)) [
      | inl e ↦
          let same : (rows, pool) ≡ r = some_inj (sym (rw e refl) ∙ h) in
          ap (λ x. length x.0) (sym same)
      | inr e ↦ elim (Bool-cases (ltb 0 capped.1)) [
        | inl e' ↦
            length-water_fill fuel lot (sub_u128 pool capped.1) capped.0 r
              (sym (rw (e, e') refl) ∙ h)
            ∙ length-cap_pass pool total rows
        | inr e' ↦
            let last = commit_pass lot pool total rows in
            let same : (last.0, sub_u128 pool last.1) ≡ r = some_inj (sym (rw (e, e') refl) ∙ h) in
            ap (λ x. length x.0) (sym same) ∙ length-commit_pass lot pool total rows
      ]
    ]

fill_shares-InLevel :
    (t : TimeProRataMatcher) (available : Qty) (makers : List Maker) (now : ℕ)
    → InLevel
        (length makers)
        (Option.get_or (Option.map (collect 0) (fill_shares t available makers now)) [])
unfolding fill_shares
fill_shares-InLevel t available makers now =
    let rows = start_rows makers (weights t makers now) in
    let filled = water_fill (suc (length makers)) t.lot_size available rows in
    elim (Option-cases filled) [
      | inl e ↦ rw (e, fill_shares) tt
      | inr (r, e) ↦
          rw (e, fill_shares)
            (shared-InLevel t.lot_size (as_u64 r.1) (length makers) makers (shares_of r.0) (
              omega (
                arith,
                length-shares_of r.0,
                length-water_fill (suc (length makers)) t.lot_size available rows r e,
                length-start_rows makers (weights t makers now),
              )))
    ]

-- Whatever the level, the quantity and the time, without any bound on them, each of the three
-- matchers names only positions of the level that it is shown.
pub matchers-IsInRange :
    IsInRange fifo_matcher
    × ((lot : ℕ) → IsInRange (pro_rata_matcher lot))
    × ((t : TimeProRataMatcher) → IsInRange (time_pro_rata_matcher t))
unfolding fifo_matcher Fifo.allocate pro_rata_matcher ProRata.allocate settle time_pro_rata_matcher
    TimeProRata.allocate
matchers-IsInRange = (
  λ available makers now.
      from_first (length makers) (fifo_loop 0 available makers)
        (fifo_loop-InLevel 0 available makers),
  λ lot available makers now. elim (Bool-cases (leb (level_total makers) available)) [
    | inl e ↦ rw e (from_first (length makers) (take_whole 0 makers) (take_whole-InLevel 0 makers))
    | inr e ↦ rw e (
        shared-InLevel lot _ (length makers) makers
          (map (floor_share available (level_total makers) lot) makers)
          (omega (arith, length-map (floor_share available (level_total makers) lot) makers)))
  ],
  λ t available makers now. elim (Bool-cases (leb (level_total makers) available)) [
    | inl e ↦ rw e (from_first (length makers) (take_whole 0 makers) (take_whole-InLevel 0 makers))
    | inr e ↦ rw e (fill_shares-InLevel t available makers now)
  ],
)
