-- ===== src/Allocation/ProRata/Sweep.antt =====
-- The remainder pass, which both weighted allocators end with: it places every leftover lot.
use order_book.Prelude.{
  ℕ, ◌+◌, ◌-◌, ◌*◌, ◌∣◌, ◌≤◌, ◌<◌, ◌≡◌, refl, List, [], ◌∷◌, arith, ltb, if◌then◌else◌, sum,
  u64_mod, sub_u64_lem, add_u64_lem, dec_lt, dvd-sub, dvd-add, All, le→leb, lt→leb, ne→==,
  le_of_dvd, dvd_refl, add-lot-le,
}
use order_book.Allocation.{Maker}
use order_book.Allocation.Contract.Shares.{Within, IsLots, remaining}
use order_book.Allocation.ProRata.{sweep}

-- How many shares are below what their makers hold.
unfoldable pub unfilled : List ℕ → List Maker → ℕ
unfilled [] ms = 0
unfilled (s ∷ ss) [] = 0
unfilled (s ∷ ss) (m ∷ ms) = (if ltb s m.remaining_quantity then 1 else 0) + unfilled ss ms

pub unfilled_open :
    (s : ℕ) (ss : List ℕ) (m : Maker) (ms : List Maker)
    → s < m.remaining_quantity
    → unfilled (s ∷ ss) (m ∷ ms) ≡ 1 + unfilled ss ms
unfolding unfilled
unfilled_open s ss m ms h = ground arith

pub unfilled_full :
    (s : ℕ) (ss : List ℕ) (m : Maker) (ms : List Maker)
    → s ≡ m.remaining_quantity
    → unfilled (s ∷ ss) (m ∷ ms) ≡ unfilled ss ms
unfolding unfilled
unfilled_full s ss m ms h = ground arith

-- What the remainder pass leaves behind.
pub record Placed (lot left : ℕ) (ms : List Maker) (ss : List ℕ) (r : List ℕ × ℕ) : Type 0 where
  pub within : Within r.0 ms
  pub lots : IsLots lot r.0
  pub total : sum r.0 ≡ sum ss + left
  pub placed : r.1 ≡ 0

module _ (lot : ℕ) (lot_pos : 0 < lot) where
  -- The three branches of one round of the remainder pass.
  sweep_done :
      (m : Maker) (ms : List Maker) (s : ℕ) (ss : List ℕ)
      → sweep lot 0 (m ∷ ms) (s ∷ ss) ≡ (s ∷ ss, 0)
  unfolding sweep
  sweep_done m ms s ss = refl

  sweep_give :
      (left : ℕ) (m : Maker) (ms : List Maker) (s : ℕ) (ss : List ℕ)
      → lot ≤ left
      → left < u64_mod
      → m.remaining_quantity < u64_mod
      → s + lot ≤ m.remaining_quantity
      → sweep lot left (m ∷ ms) (s ∷ ss)
        ≡ ((s + lot) ∷ (sweep lot (left - lot) ms ss).0, (sweep lot (left - lot) ms ss).1)
  unfolding sweep
  sweep_give left m ms s ss h b q r = rw (
    ne→== left 0 (omega arith),
    sub_u64_lem left lot h b,
    sub_u64_lem m.remaining_quantity s (omega arith) q,
    le→leb lot (m.remaining_quantity - s) (omega arith),
    add_u64_lem s lot (omega arith),
  )

  sweep_pass :
      (left : ℕ) (m : Maker) (ms : List Maker) (s : ℕ) (ss : List ℕ)
      → 0 < left
      → m.remaining_quantity < u64_mod
      → s ≡ m.remaining_quantity
      → sweep lot left (m ∷ ms) (s ∷ ss) ≡ (s ∷ (sweep lot left ms ss).0, (sweep lot left ms ss).1)
  unfolding sweep
  sweep_pass left m ms s ss h q full = rw (
    ne→== left 0 (omega arith),
    sub_u64_lem m.remaining_quantity s (omega arith) q,
    lt→leb lot (m.remaining_quantity - s) (omega arith),
  )

  -- From shares within their makers, all in whole lots, and at most one leftover lot for each
  -- unfilled share, the pass ends with nothing left.
  pub sweep-Placed :
      (left : ℕ) (ms : List Maker) (ss : List ℕ)
      → left < u64_mod
      → All (λ m. m.remaining_quantity < u64_mod) ms
      → lot ∣ left
      → left ≤ unfilled ss ms * lot
      → Within ss ms
      → IsLots lot ss
      → IsLots lot (remaining ms)
      → Placed lot left ms ss (sweep lot left ms ss)
  sweep-Placed left [] [] b q d h w l g =
      let z : left ≡ 0 = unfold unfilled in omega (arith, h) in
      unfold sweep in record { within = tt; lots = tt; total = omega arith; placed = z }
  sweep-Placed left [] (s ∷ ss) b q d h w l g = elim w [ ]
  sweep-Placed left (m ∷ ms) [] b q d h w l g = elim w [ ]
  sweep-Placed left (m ∷ ms) (s ∷ ss) b q d h w l g = elim (dec_lt 0 left) [
    | no p ↦
        let z : left ≡ 0 = omega arith in
        rw (z, sweep_done m ms s ss)
          (record { within = w; lots = l; total = omega arith; placed = refl })
    | yes p ↦ elim (dec_lt s m.remaining_quantity) [
      | yes short ↦
          let fits = add-lot-le lot l.0 g.0 short in
          let enough : lot ≤ left = le_of_dvd p d in
          let room = rw (unfilled_open s ss m ms short) at h in
          let ih =
            sweep-Placed (left - lot) ms ss (omega arith) q.1 (dvd-sub lot d (dvd_refl lot))
              (omega (arith, room)) w.1 l.1 g.1 in
          rw (sweep_give left m ms s ss enough b q.0 fits) (record {
            within = (fits, ih.within);
            lots = (dvd-add lot l.0 (dvd_refl lot), ih.lots);
            total = omega (arith, ih.total);
            placed = ih.placed;
          })
      | no full ↦
          let same : s ≡ m.remaining_quantity = omega (arith, w.0) in
          let room = rw (unfilled_full s ss m ms same) at h in
          let ih = sweep-Placed left ms ss b q.1 d room w.1 l.1 g.1 in
          rw (sweep_pass left m ms s ss p q.0 same) (record {
            within = (w.0, ih.within);
            lots = (l.0, ih.lots);
            total = omega (arith, ih.total);
            placed = ih.placed;
          })
    ]
  ]
