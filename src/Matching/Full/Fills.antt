-- ===== src/Matching/Full/Fills.antt =====
-- The allocation contract of src/allocation.rs when the whole level is owed: every maker is filled whole.
use order_book.Prelude.{
  ℕ, suc, ◌+◌, ◌≤◌, ◌<◌, ◌≡◌, refl, ap, ◌∙◌, false, List, [], ◌∷◌, some, arith, sum, All, ◌==◌,
  get_elem?, ℕ_discrete,
}
use order_book.Allocation.{Fill, Maker}
use order_book.Allocation.Contract.Shares.{remaining, From, From-tail}
use order_book.Allocation.Contract.Sound.{IsFill, Ascending, quantities, sum-quantities-le}
use order_book.Allocation.ProRata.{take_whole}

abbrev pub Positive : List Maker → Type 0
Positive = All (λ (m : Maker). 0 < m.remaining_quantity)

-- Fills at rising positions that give out all that a level of positive quantities has.
pub fills-eq-take_whole :
    (makers : List Maker) (lot i : ℕ) (ms : List Maker) (fs : List Fill)
    → From makers i ms
    → Ascending i fs
    → All (IsFill makers lot) fs
    → Positive ms
    → sum (quantities fs) ≡ sum (remaining ms)
    → fs ≡ take_whole i ms
unfolding take_whole
fills-eq-take_whole makers lot i [] [] f up each pos e = refl
fills-eq-take_whole makers lot i (m ∷ ms) [] f up each pos e = absurd (omega (arith, e, pos.0))
fills-eq-take_whole makers lot i [] (x ∷ fs) f up each pos e =
    let (m, at, some_given, _, _) = each.0 in absurd (omega (arith, e, some_given))
fills-eq-take_whole makers lot i (m ∷ ms) (x ∷ fs) f up each pos e =
    let tail = From-tail makers i m ms f in
    elim (ℕ_discrete x.order_index i) [
      | no later ↦
          let room =
            sum-quantities-le makers lot (i + 1) ms (x ∷ fs) tail (omega (arith, up.0), up.1)
              each in
          absurd (omega (arith, room, e, pos.0))
      | yes here ↦
          let (m', at, _, le, _) = each.0 in
          let z : i ≡ 0 + i = omega arith in
          let at_i : get_elem? makers i ≡ some m = rw z (f 0) in
          let same : some m' ≡ some m = cc (at, here, at_i) in
          let room : x.quantity ≤ m.remaining_quantity = ground (arith, same, le) in
          let up' : Ascending (i + 1) fs =
            (let n : suc x.order_index ≡ i + 1 = omega arith in rw n at up.1) in
          let rest = sum-quantities-le makers lot (i + 1) ms fs tail up' each.1 in
          let whole : x.quantity ≡ m.remaining_quantity = omega (arith, room, rest, e) in
          let given : x ≡ record { order_index = i; quantity = m.remaining_quantity } =
            ap (λ (n : ℕ). record { order_index = n; quantity = x.quantity }) here
            ∙ ap (λ (q : ℕ). record { order_index = i; quantity = q }) whole in
          let not_zero : (m.remaining_quantity == 0) ≡ false = ground (arith, pos.0) in
          rw not_zero (
            ap (λ y. y ∷ fs) given
            ∙ ap (λ ys. record { order_index = i; quantity = m.remaining_quantity } ∷ ys)
                (fills-eq-take_whole makers lot (i + 1) ms fs tail up' each.1 pos.1
                  (omega (arith, whole, e))))
    ]
