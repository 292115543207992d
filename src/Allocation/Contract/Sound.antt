-- ===== src/Allocation/Contract/Sound.antt =====
-- What the engine's contract check establishes of the fills that pass it.
use order_book.Prelude.{
  ℕ, suc, ◌+◌, ◌-◌, ◌∣◌, ◌≤◌, ◌<◌, min, ◌≡◌, ap, true, List, [], ◌∷◌, some, none, Option, arith,
  sum, map, All, get_elem?, u64_mod, u128_mod, add_u128, add_u128_lem, dvd_of_mod-eq-zero,
  ℕ_discrete, Option-cases, inl, inr,
}
use order_book.Allocation.{Qty, Fill, Maker, MatchingAlgorithm}
use order_book.Allocation.Contract.{level_total, assert_loop, debug_assert_fills, exceeds, fill_ok}
use order_book.Allocation.Contract.Shares.{
  remaining, IsU64Level, level_total-eq-sum, sum-remaining-lt, From, From-tail,
}

-- A fill names a maker of the level, and takes whole lots that the maker has, more than none.
abbrev pub IsFill : List Maker → ℕ → Fill → Type 0
IsFill makers lot f =
    (m : Maker) × (get_elem? makers f.order_index ≡ some m)
    × (0 < f.quantity)
    × (f.quantity ≤ m.remaining_quantity)
    × (lot ∣ f.quantity)

-- The positions are at least `i`, and rise.
abbrev pub Ascending : ℕ → List Fill → Type 0
Ascending i [] = Unit {0}
Ascending i (f ∷ fs) = (i ≤ f.order_index) × Ascending (suc f.order_index) fs

abbrev pub quantities : List Fill → List ℕ
quantities = map (λ f. f.quantity)

-- A matcher that never gives out more than there is, the contract's clause (4).
abbrev pub IsFrugal : MatchingAlgorithm → Type 0
IsFrugal matcher =
    (available : Qty) (makers : List Maker) (now : ℕ)
    → available < u64_mod
    → sum (quantities (matcher.allocate available makers now)) ≤ available

-- The contract in its own words: clauses (1) to (3) and (5) for each fill, and (4) for their sum.
pub record Clauses (fills : List Fill) (available : Qty) (makers : List Maker) (lot : ℕ)
    : Type 0 where
  pub ascending : Ascending 0 fills
  pub each : All (IsFill makers lot) fills
  pub total : sum (quantities fills) ≡ min available (sum (remaining makers))

abbrev after : Option ℕ → ℕ
after none = 0
after (some prev) = suc prev

exceeds-le : (i : ℕ) (last : Option ℕ) → exceeds i last ≡ true → after last ≤ i
unfolding exceeds
exceeds-le i none h = omega arith
exceeds-le i (some prev) h = ground arith

fill_ok-IsFill :
    (f : Fill) (makers : List Maker) (lot : ℕ)
    → fill_ok f (get_elem? makers f.order_index) lot ≡ true
    → IsFill makers lot f
unfolding fill_ok
fill_ok-IsFill f makers lot h = elim (Option-cases (get_elem? makers f.order_index)) [
  | inl e ↦ cc (rw e at h)
  | inr (m, e) ↦
      let h' = rw e at h in
      (m, e, ground (arith, h'), ground (arith, h'), dvd_of_mod-eq-zero lot (ground (arith, h')))
]

-- One round of the loop that does not fail.
assert_loop_step :
    (last : Option ℕ) (acc : ℕ) (f : Fill) (fs : List Fill) (makers : List Maker) (lot r : ℕ)
    → assert_loop last acc (f ∷ fs) makers lot ≡ some r
    → (exceeds f.order_index last ≡ true)
      × (fill_ok f (get_elem? makers f.order_index) lot ≡ true)
      × (assert_loop (some f.order_index) (add_u128 acc f.quantity) fs makers lot ≡ some r)
unfolding assert_loop
assert_loop_step last acc f fs makers lot r h = ground arith

assert_loop-IsFill :
    (last : Option ℕ) (acc : ℕ) (fs : List Fill) (makers : List Maker) (lot r : ℕ)
    → assert_loop last acc fs makers lot ≡ some r
    → Ascending (after last) fs × All (IsFill makers lot) fs
assert_loop-IsFill last acc [] makers lot r h = (tt, tt)
assert_loop-IsFill last acc (f ∷ fs) makers lot r h =
    let (e, o, rest) = assert_loop_step last acc f fs makers lot r h in
    let (up, each) =
      assert_loop-IsFill (some f.order_index) (add_u128 acc f.quantity) fs makers lot r rest in
    ((exceeds-le f.order_index last e, up), (fill_ok-IsFill f makers lot o, each))

assert_loop-sum :
    (last : Option ℕ) (acc : ℕ) (fs : List Fill) (makers : List Maker) (lot r : ℕ)
    → assert_loop last acc fs makers lot ≡ some r
    → acc + sum (quantities fs) < u128_mod
    → r ≡ acc + sum (quantities fs)
assert_loop-sum last acc [] makers lot r h b =
    let e : acc ≡ r = (unfold assert_loop in cc) in omega (arith, e)
assert_loop-sum last acc (f ∷ fs) makers lot r h b =
    let (e, o, rest) = assert_loop_step last acc f fs makers lot r h in
    let exact = add_u128_lem acc f.quantity (omega arith) in
    omega (
      arith,
      assert_loop-sum (some f.order_index) (acc + f.quantity) fs makers lot r (rw exact at rest)
          (omega arith),
    )

-- Fills at rising positions take no more than the level holds.
pub sum-quantities-le :
    (makers : List Maker) (lot i : ℕ) (ms : List Maker) (fs : List Fill)
    → From makers i ms
    → Ascending i fs
    → All (IsFill makers lot) fs
    → sum (quantities fs) ≤ sum (remaining ms)
sum-quantities-le makers lot i ms [] f up each = omega arith
sum-quantities-le makers lot i [] (x ∷ fs) f up each =
    let (m, e, _, _, _) = each.0 in
    let z : x.order_index ≡ (x.order_index - i) + i = omega arith in
    cc (e, ap (get_elem? makers) z, f (x.order_index - i))
sum-quantities-le makers lot i (m ∷ ms) (x ∷ fs) f up each = elim (ℕ_discrete x.order_index i) [
  | yes here ↦
      let (m', e, _, le, _) = each.0 in
      let z : i ≡ 0 + i = omega arith in
      let at_i : get_elem? makers i ≡ some m = rw z (f 0) in
      let same : some m' ≡ some m = cc (e, here, at_i) in
      let room : x.quantity ≤ m.remaining_quantity = ground (arith, same, le) in
      let rest =
        sum-quantities-le makers lot (i + 1) ms fs (From-tail makers i m ms f)
          (let n : suc x.order_index ≡ i + 1 = omega arith in rw n at up.1) each.1 in
      omega (arith, room, rest)
  | no later ↦
      let rest =
        sum-quantities-le makers lot (i + 1) ms (x ∷ fs) (From-tail makers i m ms f)
          (omega arith, up.1) each in
      omega (arith, rest)
]

passes :
    (fills : List Fill) (available : Qty) (makers : List Maker) (lot : ℕ)
    → debug_assert_fills fills available makers lot ≡ true
    → (r : ℕ) × (assert_loop none 0 fills makers lot ≡ some r)
      × (r ≡ min available (level_total makers))
unfolding debug_assert_fills
passes fills available makers lot h = elim (Option-cases (assert_loop none 0 fills makers lot)) [
  | inl e ↦ cc (rw (e, debug_assert_fills) at h)
  | inr (r, e) ↦ (r, e, (let h' = rw (e, debug_assert_fills) at h in ground (arith, h')))
]

-- On a level of u64 quantities, fills that pass the engine's contract check satisfy its clauses:
-- positions strictly rise and lie in the level, each fill is positive, whole lots and within what
-- its maker has, and together they are what is owed, the available quantity or the whole level.
pub debug_assert_fills-Clauses :
    (fills : List Fill) (available : Qty) (makers : List Maker) (lot : ℕ)
    → IsU64Level makers
    → debug_assert_fills fills available makers lot ≡ true
    → Clauses fills available makers lot
debug_assert_fills-Clauses fills available makers lot v h =
    let (r, e, owed) = passes fills available makers lot h in
    let (up, each) = assert_loop-IsFill none 0 fills makers lot r e in
    let room =
      sum-quantities-le makers lot 0 makers fills (λ j. let z : j + 0 ≡ j = omega arith in rw z) up
        each in
    let exact =
      assert_loop-sum none 0 fills makers lot r e
        (omega (arith, room, sum-remaining-lt makers v)) in
    let owed' = rw (level_total-eq-sum makers v) at owed in
    record { ascending = up; each = each; total = omega (arith, exact, owed') }
