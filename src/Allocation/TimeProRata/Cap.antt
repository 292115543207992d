-- ===== src/Allocation/TimeProRata/Cap.antt =====
-- The capping pass: what one round of the loop takes from the pool.
use order_book.Prelude.{
  ℕ, ◌+◌, ◌*◌, ◌/◌, ◌∣◌, ◌≤◌, ◌<◌, ◌≡◌, refl, List, [], ◌∷◌, arith, ltb, if◌then◌else◌, sum,
  u64_mod, u128_mod, add_u128_lem, mul_u128_lem, dec_lt, dec_le, All, ◌⊎◌, inl, lt→ltb, le→leb,
  lt→leb,
}
use native.Mathlib.Nat.{le-div_iff_mul-le}
use order_book.Allocation.TimeProRata.{Row, cap_row, cap_pass, makers_of, shares_of}

-- What holds of every row in every round: it is either untouched or holds all that its maker has.
pub record IsReady (lot : ℕ) (r : Row) : Type 0 where
  pub weighs : 0 < r.weight
  pub weight_fits : r.weight < u64_mod
  pub quantity_fits : r.maker.remaining_quantity < u64_mod
  pub lots : lot ∣ r.maker.remaining_quantity
  pub state : (r.share ≡ r.maker.remaining_quantity) ⊎ (r.share ≡ 0)

-- The contending rows: their weight, their quantity, and their number.
abbrev pub open_weight : Row → ℕ
open_weight r = if ltb r.share r.maker.remaining_quantity then r.weight else 0

abbrev pub open_quantity : Row → ℕ
open_quantity r = if ltb r.share r.maker.remaining_quantity then r.maker.remaining_quantity else 0

abbrev pub open_count : Row → ℕ
open_count r = if ltb r.share r.maker.remaining_quantity then 1 else 0

abbrev pub sum_of : (Row → ℕ) → List Row → ℕ
sum_of f [] = 0
sum_of f (r ∷ rs) = f r + sum_of f rs

-- No contending share overruns its maker.
abbrev pub Fits : ℕ → ℕ → Row → Type 0
Fits pool total r =
    r.share < r.maker.remaining_quantity → pool * r.weight / total < r.maker.remaining_quantity

pub record CapsRow (lot pool total : ℕ) (r r' : Row) (taken : ℕ) : Type 0 where
  pub ready : IsReady lot r'
  pub maker : r'.maker ≡ r.maker
  pub share : r'.share ≡ r.share + taken
  pub quantity : open_quantity r' + taken ≡ open_quantity r
  pub covered : taken * total ≤ pool * open_weight r
  pub fewer : open_count r' ≤ open_count r
  pub strictly : 0 < taken → open_count r' < open_count r
  pub still : taken ≡ 0 → (r' ≡ r) × Fits pool total r

-- A row that the pass leaves alone.
CapsRow-refl :
    (lot pool total : ℕ) (r : Row)
    → IsReady lot r
    → Fits pool total r
    → CapsRow lot pool total r r 0
CapsRow-refl lot pool total r v fits = record {
  ready = v;
  maker = refl;
  share = omega arith;
  quantity = omega arith;
  covered = omega arith;
  fewer = omega arith;
  strictly = λ h. absurd (omega arith);
  still = λ e. (refl, fits);
}

capped : Row → Row
capped r = record r { share = r.maker.remaining_quantity }

capped-CapsRow :
    (lot pool total : ℕ) (r : Row)
    → IsReady lot r
    → r.share < r.maker.remaining_quantity
    → r.maker.remaining_quantity * total ≤ pool * r.weight
    → CapsRow lot pool total r (capped r) r.maker.remaining_quantity
unfolding capped
capped-CapsRow lot pool total r v short b = record {
  ready = record {
    weighs = v.weighs;
    weight_fits = v.weight_fits;
    quantity_fits = v.quantity_fits;
    lots = v.lots;
    state = inl refl;
  };
  maker = refl;
  share = ground arith;
  quantity = ground arith;
  covered = rw (lt→ltb _ _ short) b;
  fewer = ground arith;
  strictly = λ h. ground arith;
  still = λ e. absurd (omega arith);
}

module _ (lot pool total : ℕ) (r : Row) (p : pool < u64_mod) (v : IsReady lot r) where
  cap_row_full : ¬ (r.share < r.maker.remaining_quantity) → cap_row pool total r ≡ (r, 0)
  unfolding cap_row
  cap_row_full h = ground arith

  cap_row_over :
      r.share < r.maker.remaining_quantity
      → r.maker.remaining_quantity ≤ pool * r.weight / total
      → cap_row pool total r ≡ (capped r, r.maker.remaining_quantity)
  unfolding cap_row capped
  cap_row_over h k = rw (lt→ltb _ _ h, mul_u128_lem pool r.weight p v.weight_fits, le→leb _ _ k)

  cap_row_fits :
      r.share < r.maker.remaining_quantity
      → pool * r.weight / total < r.maker.remaining_quantity
      → cap_row pool total r ≡ (r, 0)
  unfolding cap_row
  cap_row_fits h k = rw (lt→ltb _ _ h, mul_u128_lem pool r.weight p v.weight_fits, lt→leb _ _ k)

  cap_row-CapsRow :
      0 < total → CapsRow lot pool total r (cap_row pool total r).0 (cap_row pool total r).1
  cap_row-CapsRow t = elim (dec_lt r.share r.maker.remaining_quantity) [
    | no full ↦ rw (cap_row_full full) (CapsRow-refl lot pool total r v (λ h. absurd (full h)))
    | yes short ↦ elim (dec_le r.maker.remaining_quantity (pool * r.weight / total)) [
      | yes over ↦
          let covers : r.maker.remaining_quantity * total ≤ pool * r.weight =
            (le-div_iff_mul-le t).0 over in
          rw (cap_row_over short over) (capped-CapsRow lot pool total r v short covers)
      | no fits ↦
          rw (cap_row_fits short (omega arith)) (CapsRow-refl lot pool total r v (λ h. omega arith))
    ]
  ]

-- The whole pass.
pub record Caps (lot pool total : ℕ) (rs rs' : List Row) (taken : ℕ) : Type 0 where
  pub ready : All (IsReady lot) rs'
  pub makers : makers_of rs' ≡ makers_of rs
  pub share : sum (shares_of rs') ≡ sum (shares_of rs) + taken
  pub quantity : sum_of open_quantity rs' + taken ≡ sum_of open_quantity rs
  pub covered : taken * total ≤ pool * sum_of open_weight rs
  pub fewer : sum_of open_count rs' ≤ sum_of open_count rs
  pub strictly : 0 < taken → sum_of open_count rs' < sum_of open_count rs
  pub still : taken ≡ 0 → (rs' ≡ rs) × All (Fits pool total) rs

Caps-cons :
    {lot pool total : ℕ} {r r' : Row} {rs rs' : List Row} {x y : ℕ}
    → CapsRow lot pool total r r' x
    → Caps lot pool total rs rs' y
    → Caps lot pool total (r ∷ rs) (r' ∷ rs') (x + y)
Caps-cons {x} {y} one rest = record {
  ready = (one.ready, rest.ready);
  makers = cc (one.maker, rest.makers);
  share = omega (arith, one.share, rest.share);
  quantity = omega (arith, one.quantity, rest.quantity);
  covered = omega (arith, one.covered, rest.covered);
  fewer = omega (arith, one.fewer, rest.fewer);
  strictly = λ h. elim (dec_lt 0 x) [
    | yes p ↦ omega (arith, one.strictly p, rest.fewer)
    | no p ↦ omega (arith, one.fewer, rest.strictly (omega arith))
  ];
  still = λ e.
      let a = one.still (omega (arith, e)) in
      let b = rest.still (omega (arith, e)) in (cc (a.0, b.0), (a.1, b.1));
}

pub cap_pass-Caps :
    (lot pool total : ℕ) (rs : List Row)
    → pool < u64_mod
    → 0 < total
    → All (IsReady lot) rs
    → sum_of open_quantity rs < u128_mod
    → Caps lot pool total rs (cap_pass pool total rs).0 (cap_pass pool total rs).1
unfolding cap_pass
cap_pass-Caps lot pool total [] p t v b = record {
  ready = tt;
  makers = refl;
  share = omega arith;
  quantity = omega arith;
  covered = omega arith;
  fewer = omega arith;
  strictly = λ h. absurd (omega (arith, h));
  still = λ e. (refl, tt);
}
cap_pass-Caps lot pool total (r ∷ rs) p t v b =
    let one = cap_row-CapsRow lot pool total r p v.0 t in
    let rest = cap_pass-Caps lot pool total rs p t v.1 (omega arith) in
    let exact =
      add_u128_lem (cap_row pool total r).1 (cap_pass pool total rs).1
        (omega (arith, one.quantity, rest.quantity)) in
    rw exact (Caps-cons one rest)
