-- ===== src/Allocation/TimeProRata/Commit.antt =====
-- The committing pass: the floored shares of the last round of the loop.
use order_book.Prelude.{
  ℕ, ◌+◌, ◌*◌, ◌/◌, ◌∣◌, ◌≤◌, ◌<◌, ◌≡◌, refl, ap, List, [], ◌∷◌, arith, ltb, if◌then◌else◌, sum,
  u64_mod, u128_mod, add_u128_lem, mul_u128_lem, as_u64_lem, dec_lt, All, mul_mono, floor_lot,
  lt→ltb, le→ltb, dvd-mul_left,
}
use native.Mathlib.Nat.{div-le_self}
use order_book.Allocation.{Maker}
use order_book.Allocation.Contract.Shares.{Within, IsLots}
use order_book.Allocation.ProRata.Sweep.{unfilled}
use order_book.Allocation.TimeProRata.{Row, commit_row, commit_pass, makers_of, shares_of}
use order_book.Allocation.TimeProRata.Cap.{
  IsReady, open_weight, open_quantity, open_count, sum_of, Fits,
}

-- The share lies within its maker, is whole lots, and is less than a lot below its proportion.
pub record CommitsRow (lot pool total : ℕ) (r r' : Row) (taken : ℕ) : Type 0 where
  pub maker : r'.maker ≡ r.maker
  pub share : r'.share ≡ r.share + taken
  pub within : r'.share ≤ r.maker.remaining_quantity
  pub lots : lot ∣ r'.share
  pub below : taken * total ≤ pool * open_weight r
  pub above : pool * open_weight r ≤ (taken + open_count r' * lot) * total
  pub bounded : taken ≤ open_quantity r

CommitsRow-refl :
    (lot pool total : ℕ) (r : Row)
    → IsReady lot r
    → ¬ (r.share < r.maker.remaining_quantity)
    → CommitsRow lot pool total r r 0
CommitsRow-refl lot pool total r v h =
    let full : r.share ≡ r.maker.remaining_quantity = omega (arith, v.state) in
    let no_weight : open_weight r ≡ 0 =
      rw (full, le→ltb r.maker.remaining_quantity r.maker.remaining_quantity (omega arith)) refl in
    record {
      maker = refl;
      share = omega arith;
      within = omega arith;
      lots = rw full v.lots;
      below = omega arith;
      above = rw no_weight (omega arith);
      bounded = omega arith;
    }

module _ (lot pool total : ℕ) (r : Row) where
  abbrev floored : ℕ
  floored = pool * r.weight / total / lot * lot

  committed : Row
  committed = record r { share = floored }

  committed-CommitsRow :
      0 < lot
      → 0 < total
      → r.share ≡ 0
      → r.share < r.maker.remaining_quantity
      → pool * r.weight / total < r.maker.remaining_quantity
      → CommitsRow lot pool total r committed floored
  unfolding committed
  committed-CommitsRow lp tp new short fits =
      let e : ℕ = pool * r.weight / total in
      let b = floor_lot (pool * r.weight) total tp in
      let c = floor_lot e lot lp in
      let under : floored < r.maker.remaining_quantity = omega (arith, c.0, fits) in
      let weight : open_weight r ≡ r.weight = rw (lt→ltb _ _ short) refl in
      record {
        maker = refl;
        share = omega (arith, new);
        within = omega (arith, under);
        lots = dvd-mul_left lot (e / lot);
        below = rw weight (omega (arith, b.0, mul_mono floored e total c.0));
        above =
            rw (weight, lt→ltb _ _ under)
              (omega (arith, b.1, mul_mono (e + 1) (floored + 1 * lot) total (omega (arith, c.1))));
        bounded = rw (lt→ltb _ _ short) (omega (arith, under));
      }

  commit_row_full : ¬ (r.share < r.maker.remaining_quantity) → commit_row lot pool total r ≡ (r, 0)
  unfolding commit_row
  commit_row_full h = ground arith

  commit_row_open :
      pool < u64_mod
      → lot < u64_mod
      → IsReady lot r
      → r.share < r.maker.remaining_quantity
      → pool * r.weight / total < r.maker.remaining_quantity
      → floored < r.maker.remaining_quantity
      → commit_row lot pool total r ≡ (committed, floored)
  unfolding commit_row committed
  commit_row_open p l v short fits under = rw (
    lt→ltb _ _ short,
    mul_u128_lem pool r.weight p v.weight_fits,
    mul_u128_lem (pool * r.weight / total / lot) lot
        (omega (arith, div-le_self (pool * r.weight / total) lot, fits, v.quantity_fits)) l,
    as_u64_lem floored (omega (arith, under, v.quantity_fits)),
  )

  commit_row-CommitsRow :
      pool < u64_mod
      → lot < u64_mod
      → 0 < lot
      → 0 < total
      → IsReady lot r
      → Fits pool total r
      → CommitsRow lot pool total r (commit_row lot pool total r).0 (commit_row lot pool total r).1
  commit_row-CommitsRow p l lp tp v fits = elim (dec_lt r.share r.maker.remaining_quantity) [
    | no full ↦ rw (commit_row_full full) (CommitsRow-refl lot pool total r v full)
    | yes short ↦
        let c = floor_lot (pool * r.weight / total) lot lp in
        let new : r.share ≡ 0 = omega (arith, v.state) in
        rw (commit_row_open p l v short (fits short) (omega (arith, c.0, fits short)))
          (committed-CommitsRow lp tp new short (fits short))
  ]

-- The whole pass.
pub record Commits (lot pool total : ℕ) (rs rs' : List Row) (taken : ℕ) : Type 0 where
  pub makers : makers_of rs' ≡ makers_of rs
  pub share : sum (shares_of rs') ≡ sum (shares_of rs) + taken
  pub within : Within (shares_of rs') (makers_of rs)
  pub lots : IsLots lot (shares_of rs')
  pub below : taken * total ≤ pool * sum_of open_weight rs
  pub above :
      pool * sum_of open_weight rs ≤ (taken + unfilled (shares_of rs') (makers_of rs) * lot) * total
  pub bounded : taken ≤ sum_of open_quantity rs

unfilled-cons :
    (s q : ℕ) (ss : List ℕ) (m : Maker) (ms : List Maker)
    → q ≡ m.remaining_quantity
    → unfilled (s ∷ ss) (m ∷ ms) ≡ (if ltb s q then 1 else 0) + unfilled ss ms
unfolding unfilled
unfilled-cons s q ss m ms e = rw e refl

Commits-cons :
    {lot pool total : ℕ} {r r' : Row} {rs rs' : List Row} {x y : ℕ}
    → CommitsRow lot pool total r r' x
    → Commits lot pool total rs rs' y
    → Commits lot pool total (r ∷ rs) (r' ∷ rs') (x + y)
Commits-cons {r} {r'} {rs} {rs'} one rest = record {
  makers = cc (one.maker, rest.makers);
  share = omega (arith, one.share, rest.share);
  within = (one.within, rest.within);
  lots = (one.lots, rest.lots);
  below = omega (arith, one.below, rest.below);
  above =
      rw
        (unfilled-cons r'.share r'.maker.remaining_quantity (shares_of rs') r.maker (makers_of rs)
          (ap (λ (m : Maker). m.remaining_quantity) one.maker))
        (omega (arith, one.above, rest.above));
  bounded = omega (arith, one.bounded, rest.bounded);
}

pub commit_pass-Commits :
    (lot pool total : ℕ) (rs : List Row)
    → pool < u64_mod
    → lot < u64_mod
    → 0 < lot
    → 0 < total
    → All (IsReady lot) rs
    → All (Fits pool total) rs
    → sum_of open_quantity rs < u128_mod
    → Commits lot pool total rs (commit_pass lot pool total rs).0 (commit_pass lot pool total rs).1
unfolding commit_pass
commit_pass-Commits lot pool total [] p l lp tp v f b = record {
  makers = refl;
  share = omega arith;
  within = tt;
  lots = tt;
  below = omega arith;
  above = omega arith;
  bounded = omega arith;
}
commit_pass-Commits lot pool total (r ∷ rs) p l lp tp v f b =
    let one = commit_row-CommitsRow lot pool total r p l lp tp v.0 f.0 in
    let rest = commit_pass-Commits lot pool total rs p l lp tp v.1 f.1 (omega arith) in
    let exact =
      add_u128_lem (commit_row lot pool total r).1 (commit_pass lot pool total rs).1
        (omega (arith, one.bounded, rest.bounded)) in
    rw exact (Commits-cons one rest)
