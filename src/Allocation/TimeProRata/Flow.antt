-- ===== src/Allocation/TimeProRata/Flow.antt =====
-- The water-filling loop: it ends within its fuel, and leaves at most one lot for each unfilled
-- maker.
use order_book.Prelude.{
  ℕ, zero, suc, ◌+◌, ◌-◌, ◌*◌, ◌∣◌, ◌≤◌, ◌<◌, ◌≡◌, refl, sym, ap, ◌∙◌, List, [], ◌∷◌, arith, some,
  sum, u64_mod, u128_mod, add_u128_lem, sub_u128_lem, dec_lt, All, ◌⊎◌, inl, inr, length, lt→ltb,
  le→ltb, ne→==, dvd-sub, dvd-zero, le_of_mul-le,
}
use order_book.Allocation.Contract.Shares.{Within, IsLots, sum-IsLots}
use order_book.Allocation.ProRata.Sweep.{unfilled}
use order_book.Allocation.TimeProRata.{
  Row, weight_total, cap_pass, commit_pass, water_fill, makers_of, shares_of,
}
use order_book.Allocation.TimeProRata.Cap.{
  IsReady, open_weight, open_quantity, open_count, sum_of, Caps, cap_pass-Caps,
}
use order_book.Allocation.TimeProRata.Commit.{Commits, commit_pass-Commits}

-- What holds before every round.
pub record IsRound (lot pool : ℕ) (rows : List Row) : Type 0 where
  pub ready : All (IsReady lot) rows
  pub count : length rows < u64_mod
  pub fits : pool < u64_mod
  pub whole : lot ∣ pool
  pub short : pool < sum_of open_quantity rows

-- What the loop returns.
pub record Filled (lot pool : ℕ) (rows : List Row) (r : List Row × ℕ) : Type 0 where
  pub makers : makers_of r.0 ≡ makers_of rows
  pub share : sum (shares_of r.0) + r.1 ≡ sum (shares_of rows) + pool
  pub within : Within (shares_of r.0) (makers_of rows)
  pub lots : IsLots lot (shares_of r.0)
  pub whole : lot ∣ r.1
  pub left_le : r.1 ≤ unfilled (shares_of r.0) (makers_of rows) * lot
  pub left_fits : r.1 < u64_mod

open_weight-le :
    (lot : ℕ) (rows : List Row)
    → All (IsReady lot) rows
    → sum_of open_weight rows + length rows ≤ length rows * u64_mod
open_weight-le lot [] v = omega arith
open_weight-le lot (r ∷ rs) v =
    let one : open_weight r < u64_mod = ground arith in
    omega (arith, open_weight-le lot rs v.1, one)

open_quantity-le :
    (lot : ℕ) (rows : List Row)
    → All (IsReady lot) rows
    → sum_of open_quantity rows + length rows ≤ length rows * u64_mod
open_quantity-le lot [] v = omega arith
open_quantity-le lot (r ∷ rs) v =
    let one : open_quantity r < u64_mod = ground arith in
    omega (arith, open_quantity-le lot rs v.1, one)

-- A contending maker carries weight.
open_weight_pos :
    (lot : ℕ) (rows : List Row)
    → All (IsReady lot) rows
    → 0 < sum_of open_quantity rows
    → 0 < sum_of open_weight rows
open_weight_pos lot [] v h = absurd (omega arith)
open_weight_pos lot (r ∷ rs) v h = elim (dec_lt r.share r.maker.remaining_quantity) [
  | yes p ↦ rw (lt→ltb _ _ p) (omega (arith, v.0.weighs))
  | no p ↦
      let closed = le→ltb r.share r.maker.remaining_quantity (omega arith) in
      let rest = rw closed at h in omega (arith, open_weight_pos lot rs v.1 (omega (arith, rest)))
]

weight_total-eq-sum :
    (lot : ℕ) (rows : List Row)
    → All (IsReady lot) rows
    → length rows < u64_mod
    → weight_total rows ≡ sum_of open_weight rows
unfolding weight_total
weight_total-eq-sum lot [] v h = refl
weight_total-eq-sum lot (r ∷ rs) v h =
    let ih = weight_total-eq-sum lot rs v.1 (omega arith) in
    let bound = open_weight-le lot (r ∷ rs) v in
    ground (arith, ih, bound, add_u128_lem r.weight (weight_total rs))

shares-IsLots : (lot : ℕ) (rows : List Row) → All (IsReady lot) rows → IsLots lot (shares_of rows)
shares-IsLots lot [] v = tt
shares-IsLots lot (r ∷ rs) v = (one v.0.state, shares-IsLots lot rs v.1)
  where
    one : (r.share ≡ r.maker.remaining_quantity) ⊎ (r.share ≡ 0) → lot ∣ r.share
    one (inl full) = rw full v.0.lots
    one (inr new) = rw new (dvd-zero lot)

-- What is added to a sum of whole lots to reach another is whole lots.
dvd_of_sums : (lot x y t : ℕ) → lot ∣ x → lot ∣ y → y ≡ x + t → lot ∣ t
dvd_of_sums lot x y t h k e = let d : t ≡ y - x = omega arith in rw d (dvd-sub lot k h)

length-makers : (xs ys : List Row) → makers_of xs ≡ makers_of ys → length xs ≡ length ys
length-makers [] [] e = refl
length-makers [] (y ∷ ys) e = cc
length-makers (x ∷ xs) [] e = cc
length-makers (x ∷ xs) (y ∷ ys) e = ap suc (length-makers xs ys (cc))

module _ (lot : ℕ) (lot_pos : 0 < lot) (lot_fits : lot < u64_mod) where
  module _ (pool : ℕ) (rows : List Row) (v : IsRound lot pool rows) where
    abbrev total : ℕ
    total = sum_of open_weight rows

    total_pos : 0 < total
    total_pos = open_weight_pos lot rows v.ready (omega (arith, v.short))

    quantity_fits : sum_of open_quantity rows < u128_mod
    quantity_fits = omega (arith, open_quantity-le lot rows v.ready, v.count)

    caps : Caps lot pool total rows (cap_pass pool total rows).0 (cap_pass pool total rows).1
    caps = cap_pass-Caps lot pool total rows v.fits total_pos v.ready quantity_fits

    capped_le : (cap_pass pool total rows).1 ≤ pool
    capped_le = le_of_mul-le _ pool total total_pos caps.covered

    -- A round that caps leads to a round.
    next-IsRound : IsRound lot (pool - (cap_pass pool total rows).1) (cap_pass pool total rows).0
    next-IsRound = record {
      ready = caps.ready;
      count = rw (length-makers (cap_pass pool total rows).0 rows caps.makers) v.count;
      fits = omega (arith, v.fits);
      whole = dvd-sub lot v.whole (
          dvd_of_sums lot (sum (shares_of rows)) (sum (shares_of (cap_pass pool total rows).0)) _
            (sum-IsLots lot _ (shares-IsLots lot rows v.ready))
            (sum-IsLots lot _ (shares-IsLots lot _ caps.ready)) caps.share);
      short = omega (arith, caps.quantity, capped_le, v.short);
    }

    module _ (none_capped : (cap_pass pool total rows).1 ≡ 0) where
      commits :
          Commits lot pool total rows
            (commit_pass lot pool total rows).0
            (commit_pass lot pool total rows).1
      commits =
          commit_pass-Commits lot pool total rows v.fits lot_fits lot_pos total_pos v.ready
            (caps.still none_capped).1 quantity_fits

      used_le : (commit_pass lot pool total rows).1 ≤ pool
      used_le = le_of_mul-le _ pool total total_pos commits.below

      -- A round that caps nobody is the last.
      last_round :
          Filled lot pool rows
            ((commit_pass lot pool total rows).0, pool - (commit_pass lot pool total rows).1)
      last_round =
          let c = commits in
          let used = used_le in
          let owed =
            le_of_mul-le pool
              ((commit_pass lot pool total rows).1
                + unfilled (shares_of (commit_pass lot pool total rows).0) (makers_of rows) * lot)
              total total_pos c.above in
          record {
            makers = c.makers;
            share = omega (arith, c.share, used);
            within = c.within;
            lots = c.lots;
            whole = dvd-sub lot v.whole (
                dvd_of_sums lot (sum (shares_of rows)) _ _
                  (sum-IsLots lot _ (shares-IsLots lot rows v.ready)) (sum-IsLots lot _ c.lots)
                  c.share);
            left_le = omega (arith, owed);
            left_fits = omega (arith, v.fits);
          }

  Filled-next :
      (pool : ℕ) (rows : List Row) (v : IsRound lot pool rows) (r : List Row × ℕ)
      → Filled lot
          (pool - (cap_pass pool (sum_of open_weight rows) rows).1)
          (cap_pass pool (sum_of open_weight rows) rows).0
          r
      → Filled lot pool rows r
  Filled-next pool rows v r f =
      let c = caps pool rows v in
      record {
        makers = f.makers ∙ c.makers;
        share = omega (arith, f.share, c.share, capped_le pool rows v);
        within = rw (sym c.makers) f.within;
        lots = f.lots;
        whole = f.whole;
        left_le = rw (sym c.makers) f.left_le;
        left_fits = f.left_fits;
      }

  -- With more fuel than contending makers the loop ends, and what it leaves is as `Filled` says.
  pub water_fill-Filled :
      (fuel pool : ℕ) (rows : List Row)
      → sum_of open_count rows < fuel
      → IsRound lot pool rows
      → (r : List Row × ℕ) × (water_fill fuel lot pool rows ≡ some r) × Filled lot pool rows r
  unfolding water_fill
  water_fill-Filled zero pool rows h v = elim h [ ]
  water_fill-Filled (suc fuel) pool rows h v =
      let total : ℕ = sum_of open_weight rows in
      let c = caps pool rows v in
      let exact = weight_total-eq-sum lot rows v.ready v.count in
      let weighs = ne→== total 0 (omega (arith, total_pos pool rows v)) in
      let fits : pool < u128_mod = omega (arith, v.fits) in
      elim (dec_lt 0 (cap_pass pool total rows).1) [
        | yes some_capped ↦
            let (r, e, f) =
              water_fill-Filled fuel (pool - (cap_pass pool total rows).1)
                (cap_pass pool total rows).0 (omega (arith, c.strictly some_capped))
                (next-IsRound pool rows v) in
            (
              r,
              rw
                  (
                    exact,
                    weighs,
                    lt→ltb 0 _ some_capped,
                    sub_u128_lem pool _ (capped_le pool rows v) fits,
                  )
                  e,
              Filled-next pool rows v r f,
            )
        | no none_capped ↦
            let none' : (cap_pass pool total rows).1 ≡ 0 = omega arith in
            let f = last_round pool rows v none' in
            let used = used_le pool rows v none' in
            (
              ((commit_pass lot pool total rows).0, pool - (commit_pass lot pool total rows).1),
              rw (exact, weighs, none', sub_u128_lem pool _ used fits) refl,
              f,
            )
      ]
