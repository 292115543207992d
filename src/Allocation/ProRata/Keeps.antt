-- ===== src/Allocation/ProRata/Keeps.antt =====
-- The pro-rata allocator keeps the contract.
use order_book.Prelude.{
  ℕ, ◌+◌, ◌-◌, ◌*◌, ◌∣◌, ◌≤◌, ◌<◌, ◌≡◌, refl, true, List, [], ◌∷◌, arith, sum, map, u64_mod,
  u128_mod, sub_u64_lem, add_u64_lem, dec_lt, dvd-sub, All, le→leb, lt→leb, le_of_mul-le,
}
use order_book.Allocation.{Qty, Maker}
use order_book.Allocation.Contract.{debug_assert_fills}
use order_book.Allocation.Contract.Shares.{
  Within, IsLots, remaining, IsU64Level, collect, debug_assert_fills-collect, level_total-eq-sum,
  sum-remaining-lt, sum-IsLots,
}
use order_book.Allocation.ProRata.{take_whole, floor_share, sum_u64, settle, allocate}
use order_book.Allocation.ProRata.Sweep.{unfilled, Placed, sweep-Placed}
use order_book.Allocation.ProRata.Floor.{
  floor_share-IsShare, AreShares, sum-shares-below, sum-shares-above,
}

module _ (a total lot : ℕ) where
  shares-Within : (ss : List ℕ) (ms : List Maker) → AreShares a total lot ss ms → Within ss ms
  shares-Within [] [] h = tt
  shares-Within [] (m ∷ ms) h = elim h [ ]
  shares-Within (s ∷ ss) [] h = elim h [ ]
  shares-Within (s ∷ ss) (m ∷ ms) h = (h.0.within, shares-Within ss ms h.1)

  shares-IsLots : (ss : List ℕ) (ms : List Maker) → AreShares a total lot ss ms → IsLots lot ss
  shares-IsLots [] ms h = tt
  shares-IsLots (s ∷ ss) [] h = elim h [ ]
  shares-IsLots (s ∷ ss) (m ∷ ms) h = (h.0.lots, shares-IsLots ss ms h.1)

pub take_whole-eq-collect : (i : ℕ) (ms : List Maker) → take_whole i ms ≡ collect i (remaining ms)
unfolding take_whole collect
take_whole-eq-collect i [] = refl
take_whole-eq-collect i (m ∷ ms) = ground (arith, take_whole-eq-collect (i + 1) ms)

pub remaining-Within : (ms : List Maker) → Within (remaining ms) ms
remaining-Within [] = tt
remaining-Within (m ∷ ms) = (omega arith, remaining-Within ms)

sum_u64-eq-sum : (ss : List ℕ) → sum ss < u64_mod → sum_u64 ss ≡ sum ss
unfolding sum_u64
sum_u64-eq-sum [] h = refl
sum_u64-eq-sum (s ∷ ss) h =
    rw (sum_u64-eq-sum ss (omega arith), add_u64_lem s (sum ss) (omega arith))

floor-AreShares :
    (a total lot : ℕ) (ms : List Maker)
    → 0 < lot
    → lot < u64_mod
    → a < total
    → total < u128_mod
    → a < u64_mod
    → All (λ m. m.remaining_quantity < u64_mod) ms
    → IsLots lot (remaining ms)
    → AreShares a total lot (map (floor_share a total lot) ms) ms
floor-AreShares a total lot [] p k h t b q l = tt
floor-AreShares a total lot (m ∷ ms) p k h t b q l = (
  floor_share-IsShare a total lot p h m t k b q.0 l.0,
  floor-AreShares a total lot ms p k h t b q.1 l.1,
)

module _ (lot a : ℕ) (ms : List Maker) (lot_pos : 0 < lot) (lot_fits : lot < u64_mod)
    (fits : a < u64_mod) (v : IsU64Level ms) (whole : lot ∣ a) (grid : IsLots lot (remaining ms))
    (less : a < sum (remaining ms)) where
  abbrev floors : List ℕ
  floors = map (floor_share a (sum (remaining ms)) lot) ms

  floors-AreShares : AreShares a (sum (remaining ms)) lot floors ms
  floors-AreShares =
      floor-AreShares a (sum (remaining ms)) lot ms lot_pos lot_fits less (sum-remaining-lt ms v)
        fits v.each grid

  sum-floors-le : sum floors ≤ a
  sum-floors-le =
      le_of_mul-le (sum floors) a (sum (remaining ms)) (omega arith)
        (sum-shares-below a (sum (remaining ms)) lot floors ms floors-AreShares)

  le-sum-floors : a ≤ sum floors + unfilled floors ms * lot
  le-sum-floors =
      le_of_mul-le a (sum floors + unfilled floors ms * lot) (sum (remaining ms)) (omega arith)
        (sum-shares-above a (sum (remaining ms)) lot lot_pos floors ms floors-AreShares)

  floors-IsLots : IsLots lot floors
  floors-IsLots = shares-IsLots a (sum (remaining ms)) lot floors ms floors-AreShares

  pub settle-Placed : Placed lot (a - sum floors) ms floors (settle lot a ms)
  unfolding settle
  settle-Placed =
      rw
        (
          level_total-eq-sum ms v,
          sum_u64-eq-sum floors (omega (arith, sum-floors-le)),
          sub_u64_lem a (sum floors) sum-floors-le fits,
        )
        (sweep-Placed lot lot_pos (a - sum floors) ms floors (omega arith) v.each
          (dvd-sub lot whole (sum-IsLots lot floors floors-IsLots)) (omega (arith, le-sum-floors))
          (shares-Within a _ lot floors ms floors-AreShares) floors-IsLots grid)

-- On a level of u64 quantities in whole lots, a taker of whole lots gets fills from the pro-rata
-- matcher of that lot size that pass every assertion of the engine's contract check.
pub pro_rata_keeps_contract :
    (lot : ℕ) (available : Qty) (makers : List Maker) (now : ℕ)
    → 0 < lot
    → lot < u64_mod
    → available < u64_mod
    → IsU64Level makers
    → lot ∣ available
    → IsLots lot (remaining makers)
    → debug_assert_fills (allocate lot available makers now) available makers lot ≡ true
unfolding allocate
pro_rata_keeps_contract lot a ms now p k b v d l = elim (dec_lt a (sum (remaining ms))) [
  | yes less ↦
      let r = settle-Placed lot a ms p k b v d l less in
      rw (level_total-eq-sum ms v, lt→leb _ a less)
        (debug_assert_fills-collect ms lot a (settle lot a ms).0 v r.within r.lots
          (omega (arith, r.total, sum-floors-le lot a ms p k b v d l less)))
  | no more ↦
      rw
        (
          level_total-eq-sum ms v,
          le→leb (sum (remaining ms)) a (omega arith),
          take_whole-eq-collect 0 ms,
        )
        (debug_assert_fills-collect ms lot a (remaining ms) v (remaining-Within ms) l (omega arith))
]
