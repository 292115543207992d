-- ===== src/Allocation/TimeProRata/Keeps.antt =====
-- The time-weighted allocator ends and keeps the contract.
use order_book.Prelude.{
  ℕ, suc, ◌∣◌, ◌≤◌, ◌<◌, ◌≡◌, refl, true, List, [], ◌∷◌, arith, some, sum, u64_mod, as_u64_lem,
  dec_lt, All, inr, length, lt→leb, le→leb,
}
use order_book.Allocation.{Qty, Fill, Maker}
use order_book.Allocation.Contract.{debug_assert_fills}
use order_book.Allocation.Contract.Shares.{
  Within, IsLots, remaining, IsU64Level, collect, debug_assert_fills-collect, level_total-eq-sum,
}
use order_book.Allocation.ProRata.{sweep, take_whole}
use order_book.Allocation.ProRata.Sweep.{sweep-Placed}
use order_book.Allocation.ProRata.Keeps.{take_whole-eq-collect, remaining-Within}
use order_book.Allocation.TimeProRata.{
  TimeProRataMatcher, Row, weights, start_rows, water_fill, makers_of, shares_of, fill_shares,
  allocate,
}
use order_book.Allocation.TimeProRata.Weights.{IsWeight, weights-AreWeights, length-weights}
use order_book.Allocation.TimeProRata.Cap.{IsReady, open_quantity, open_count, sum_of}
use order_book.Allocation.TimeProRata.Flow.{Filled, water_fill-Filled}

-- The rows before the first round.
pub record Starts (lot : ℕ) (ms : List Maker) (rows : List Row) : Type 0 where
  pub makers : makers_of rows ≡ ms
  pub ready : All (IsReady lot) rows
  pub count : length rows ≡ length ms
  pub contend : sum_of open_count rows ≤ length ms
  pub quantity : sum_of open_quantity rows ≡ sum (remaining ms)
  pub shares : sum (shares_of rows) ≡ 0

start_rows-Starts :
    (lot : ℕ) (ms : List Maker) (ws : List ℕ)
    → length ws ≡ length ms
    → All IsWeight ws
    → All (λ m. m.remaining_quantity < u64_mod) ms
    → IsLots lot (remaining ms)
    → Starts lot ms (start_rows ms ws)
unfolding start_rows
start_rows-Starts lot [] ws e w q l = record {
  makers = refl;
  ready = tt;
  count = refl;
  contend = omega arith;
  quantity = omega arith;
  shares = omega arith;
}
start_rows-Starts lot (m ∷ ms) [] e w q l = absurd (omega arith)
start_rows-Starts lot (m ∷ ms) (x ∷ ws) e w q l =
    let rest = start_rows-Starts lot ms ws (omega arith) w.1 q.1 l.1 in
    record {
      makers = cc rest.makers;
      ready = (
        record {
          weighs = w.0.0;
          weight_fits = w.0.1;
          quantity_fits = q.0;
          lots = l.0;
          state = inr refl;
        },
        rest.ready,
      );
      count = omega (arith, rest.count);
      contend = ground (arith, rest.contend);
      quantity = ground (arith, rest.quantity);
      shares = omega (arith, rest.shares);
    }

module _ (t : TimeProRataMatcher) (a : ℕ) (ms : List Maker) (now : ℕ) (lot_pos : 0 < t.lot_size)
    (lot_fits : t.lot_size < u64_mod) (fits : a < u64_mod) (v : IsU64Level ms)
    (whole : t.lot_size ∣ a) (grid : IsLots t.lot_size (remaining ms)) where
  starts : Starts t.lot_size ms (start_rows ms (weights t ms now))
  starts =
      start_rows-Starts t.lot_size ms (weights t ms now) (length-weights t ms now)
        (weights-AreWeights t ms now) v.each grid

  abbrev rows : List Row
  rows = start_rows ms (weights t ms now)

  abbrev Ends : Type 0
  Ends =
      (ss : List ℕ) × (fill_shares t a ms now ≡ some ss)
      × Within ss ms
      × IsLots t.lot_size ss
      × (sum ss ≡ a)

  ends_of_Filled :
      (r : List Row × ℕ)
      → water_fill (suc (length ms)) t.lot_size a rows ≡ some r
      → Filled t.lot_size a rows r
      → Ends
  unfolding fill_shares
  ends_of_Filled r e f =
      let s = starts in
      let p =
        sweep-Placed t.lot_size lot_pos r.1 ms (shares_of r.0) f.left_fits v.each f.whole
          (rw s.makers at f.left_le) (rw s.makers at f.within) f.lots grid in
      (
        (sweep t.lot_size r.1 ms (shares_of r.0)).0,
        rw (e, fill_shares, as_u64_lem r.1 f.left_fits) refl,
        p.within,
        p.lots,
        omega (arith, p.total, f.share, s.shares),
      )

  -- Below the level's total, the shares are within the makers, in whole lots, and use all of `a`.
  fill_shares_ends : a < sum (remaining ms) → Ends
  fill_shares_ends less =
      let s = starts in
      let (r, e, f) =
        water_fill-Filled t.lot_size lot_pos lot_fits (suc (length ms)) a rows
          (omega (arith, s.contend))
          (record {
            ready = s.ready;
            count = rw s.count v.count;
            fits = fits;
            whole = whole;
            short = omega (arith, s.quantity);
          }) in
      ends_of_Filled r e f

-- For a matcher with a non-zero u64 lot, on a level of u64 quantities in whole lots, and a taker of
-- whole lots, the loop ends, at any time and with any tick and age cap, and the fills pass every
-- assertion of the engine's contract check.
pub time_pro_rata_keeps_contract :
    (t : TimeProRataMatcher) (available : Qty) (makers : List Maker) (now : ℕ)
    → 0 < t.lot_size
    → t.lot_size < u64_mod
    → available < u64_mod
    → IsU64Level makers
    → t.lot_size ∣ available
    → IsLots t.lot_size (remaining makers)
    → (fills : List Fill) × (allocate t available makers now ≡ some fills)
      × (debug_assert_fills fills available makers t.lot_size ≡ true)
unfolding allocate
time_pro_rata_keeps_contract t a ms now p k b v d l = elim (dec_lt a (sum (remaining ms))) [
  | yes less ↦
      let (ss, e, w, g, s) = fill_shares_ends t a ms now p k b v d l less in
      (
        collect 0 ss,
        rw (level_total-eq-sum ms v, lt→leb (sum (remaining ms)) a less, e) refl,
        debug_assert_fills-collect ms t.lot_size a ss v w g (omega arith),
      )
  | no more ↦ (
    take_whole 0 ms,
    rw (level_total-eq-sum ms v, le→leb (sum (remaining ms)) a (omega arith)) refl,
    rw (take_whole-eq-collect 0 ms) (
        debug_assert_fills-collect ms t.lot_size a (remaining ms) v (remaining-Within ms) l
          (omega arith)),
  )
]
