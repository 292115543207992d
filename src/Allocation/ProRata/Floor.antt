-- ===== src/Allocation/ProRata/Floor.antt =====
-- The floor pass of the pro-rata allocator: one maker's share, and the sums of all shares.
use order_book.Prelude.{
  ℕ, ◌+◌, ◌*◌, ◌/◌, ◌∣◌, ◌≤◌, ◌<◌, ◌≡◌, List, [], ◌∷◌, arith, sum, u64_mod, u128_mod, dec_lt,
  mul_u128_lem, as_u64_lem, floor_lot, div-lt, add-lot-le, dvd-mul_left, mul_mono,
}
use native.Mathlib.Nat.{div-le_of_le-mul, div-le_self}
use order_book.Allocation.{Maker}
use order_book.Allocation.Contract.Shares.{remaining}
use order_book.Allocation.ProRata.{floor_share}
use order_book.Allocation.ProRata.Sweep.{unfilled, unfilled_open, unfilled_full}

-- What the floor pass gives a maker that holds `q`, out of `a` for a level of `total`: whole lots,
-- a lot of headroom, and less than one lot below the exact proportion.
pub record IsShare (a total lot s q : ℕ) : Type 0 where
  pub lots : lot ∣ s
  pub within : s ≤ q
  pub headroom : 0 < q → s + lot ≤ q
  pub below : s * total ≤ a * q
  pub above : 0 < q → a * q ≤ (s + lot) * total

module _ (a total lot : ℕ) (lot_pos : 0 < lot) (less : a < total) where
  times-lt : (q : ℕ) → 0 < q → a * q < q * total
  times-lt q h = grind arith

  exact-lt : (q : ℕ) → 0 < q → a * q / total < q
  exact-lt q h = div-lt (a * q) total q (omega arith) (times-lt q h)

  exact-le : (q : ℕ) → a * q / total ≤ q
  exact-le q = div-le_of_le-mul total {m = a * q} (grind arith)

  floor-IsShare : (q : ℕ) → lot ∣ q → IsShare a total lot (a * q / total / lot * lot) q
  floor-IsShare q d =
      share (a * q / total) (exact-lt q) (exact-le q) (floor_lot (a * q) total (omega arith))
    where
      share :
          (e : ℕ)
          → (0 < q → e < q)
          → e ≤ q
          → (e * total ≤ a * q) × (a * q < e * total + total)
          → IsShare a total lot (e / lot * lot) q
      share e lt le ab =
          floored (e / lot * lot) (dvd-mul_left lot (e / lot)) (floor_lot e lot lot_pos)
        where
          floored : (s : ℕ) → lot ∣ s → (s ≤ e) × (e < s + lot) → IsShare a total lot s q
          floored s ds b = record {
            lots = ds;
            within = omega arith;
            headroom = λ p. add-lot-le lot ds d (omega (arith, lt p));
            below = omega (arith, mul_mono s e total b.0);
            above = λ p. omega (arith, mul_mono (e + 1) (s + lot) total (omega arith));
          }

  pub floor_share-IsShare :
      (m : Maker)
      → total < u128_mod
      → lot < u64_mod
      → a < u64_mod
      → m.remaining_quantity < u64_mod
      → lot ∣ m.remaining_quantity
      → IsShare a total lot (floor_share a total lot m) m.remaining_quantity
  unfolding floor_share
  floor_share-IsShare m h k l b d =
      let q : ℕ = m.remaining_quantity in
      let s : ℕ = a * q / total / lot * lot in
      let share : IsShare a total lot s q = floor-IsShare q d in
      rw
        (
          mul_u128_lem a q l b,
          mul_u128_lem (a * q / total / lot) lot
              (omega (arith, div-le_self (a * q / total) lot, exact-le q)) k,
          as_u64_lem s (omega (arith, share.within)),
        )
        share

-- The floor pass over a level, or over a part of it.
abbrev pub AreShares : ℕ → ℕ → ℕ → List ℕ → List Maker → Type 0
AreShares a total lot [] [] = Unit {0}
AreShares a total lot [] (m ∷ ms) = ⊥
AreShares a total lot (s ∷ ss) [] = ⊥
AreShares a total lot (s ∷ ss) (m ∷ ms) =
    IsShare a total lot s m.remaining_quantity × AreShares a total lot ss ms

module _ (a total lot : ℕ) where
  pub sum-shares-below :
      (ss : List ℕ) (ms : List Maker)
      → AreShares a total lot ss ms
      → sum ss * total ≤ a * sum (remaining ms)
  sum-shares-below [] [] h = omega arith
  sum-shares-below [] (m ∷ ms) h = elim h [ ]
  sum-shares-below (s ∷ ss) [] h = elim h [ ]
  sum-shares-below (s ∷ ss) (m ∷ ms) h = omega (arith, h.0.below, sum-shares-below ss ms h.1)

  pub sum-shares-above :
      0 < lot
      → (ss : List ℕ) (ms : List Maker) → AreShares a total lot ss ms
      → a * sum (remaining ms) ≤ (sum ss + unfilled ss ms * lot) * total
  sum-shares-above lot_pos [] [] h = unfold unfilled in omega arith
  sum-shares-above lot_pos [] (m ∷ ms) h = elim h [ ]
  sum-shares-above lot_pos (s ∷ ss) [] h = elim h [ ]
  sum-shares-above lot_pos (s ∷ ss) (m ∷ ms) h = elim (dec_lt 0 m.remaining_quantity) [
    | yes p ↦
        let short : s < m.remaining_quantity = omega (arith, h.0.headroom p) in
        let rest = sum-shares-above lot_pos ss ms h.1 in
        rw (unfilled_open s ss m ms short) (omega (arith, h.0.above p, rest))
    | no p ↦
        let full : s ≡ m.remaining_quantity = omega (arith, h.0.within) in
        let none_held : a * m.remaining_quantity ≡ 0 = grind arith in
        let rest = sum-shares-above lot_pos ss ms h.1 in
        rw (unfilled_full s ss m ms full) (omega (arith, none_held, rest))
  ]
