-- ===== src/Allocation/Contract/Shares.antt =====
-- Fills made from a list of shares, one for each maker: the last step of the weighted allocators,
-- and the lemma that such fills pass the assertions.
use order_book.Prelude.{
  ℕ, suc, ◌+◌, ◌*◌, ◌∣◌, ◌≤◌, ◌<◌, min, ◌≡◌, refl, ap, true, List, [], ◌∷◌, some, none, Option,
  arith, ltb, if◌then◌else◌, length, get_elem?, All, sum, map, add_u128, u64_mod, u128_mod,
  add_u128_lem, eq→==, dec_lt, mod-eq-zero_of_dvd, dvd-zero, dvd-add,
}
use order_book.Allocation.{Fill, Maker}
use order_book.Allocation.Contract.{level_total, assert_loop, debug_assert_fills, exceeds, fill_ok}

-- `.enumerate().filter(|&(_, &quantity)| quantity > 0).map(Fill)` from position `i` on.
unfoldable pub collect : ℕ → List ℕ → List Fill
collect i [] = []
collect i (s ∷ ss) =
    let rest = collect (i + 1) ss in
    if ltb 0 s then record { order_index = i; quantity = s } ∷ rest else rest

-- Each share is at most what its maker holds.
abbrev pub Within : List ℕ → List Maker → Type 0
Within [] [] = Unit {0}
Within [] (m ∷ ms) = ⊥
Within (s ∷ ss) [] = ⊥
Within (s ∷ ss) (m ∷ ms) = (s ≤ m.remaining_quantity) × Within ss ms

abbrev pub IsLots : ℕ → List ℕ → Type 0
IsLots lot = All (λ s. lot ∣ s)

abbrev pub remaining : List Maker → List ℕ
remaining = map (λ m. m.remaining_quantity)

-- What the types say of a level: quantities fit u64, and the number of makers fits usize.
pub record IsU64Level (makers : List Maker) : Type 0 where
  pub each : All (λ m. m.remaining_quantity < u64_mod) makers
  pub count : length makers < u64_mod

pub sum-IsLots : (lot : ℕ) (ss : List ℕ) → IsLots lot ss → lot ∣ sum ss
sum-IsLots lot [] h = dvd-zero lot
sum-IsLots lot (s ∷ ss) h = dvd-add lot h.0 (sum-IsLots lot ss h.1)

sum-remaining-le :
    (ms : List Maker)
    → All (λ m. m.remaining_quantity < u64_mod) ms
    → sum (remaining ms) + length ms ≤ length ms * u64_mod
sum-remaining-le [] h = omega arith
sum-remaining-le (m ∷ ms) h = omega (arith, sum-remaining-le ms h.1)

-- Under the types' bounds the total of a level is exact, and fits u128.
pub sum-remaining-lt : (ms : List Maker) → IsU64Level ms → sum (remaining ms) < u128_mod
sum-remaining-lt ms v = omega (arith, sum-remaining-le ms v.each, v.count)

IsU64Level-tail : {m : Maker} {ms : List Maker} → IsU64Level (m ∷ ms) → IsU64Level ms
IsU64Level-tail v = record { each = v.each.1; count = omega (arith, v.count) }

pub level_total-eq-sum : (ms : List Maker) → IsU64Level ms → level_total ms ≡ sum (remaining ms)
unfolding level_total
level_total-eq-sum [] v = refl
level_total-eq-sum (m ∷ ms) v = omega (
  arith,
  level_total-eq-sum ms (IsU64Level-tail v),
  sum-remaining-lt (m ∷ ms) v,
  add_u128_lem m.remaining_quantity (level_total ms),
)

exceeds-suc : (i : ℕ) (last : Option ℕ) → exceeds i last ≡ true → exceeds (i + 1) last ≡ true
unfolding exceeds
exceeds-suc i none h = refl
exceeds-suc i (some prev) h = ground arith

exceeds_next : (i : ℕ) → exceeds (i + 1) (some i) ≡ true
unfolding exceeds
exceeds_next i = ground arith

fill_ok_of :
    (i s lot : ℕ) (m : Maker)
    → 0 < s
    → s ≤ m.remaining_quantity
    → lot ∣ s
    → fill_ok (record { order_index = i; quantity = s }) (some m) lot ≡ true
unfolding fill_ok
fill_ok_of i s lot m p w l = ground (arith, mod-eq-zero_of_dvd lot l)

-- The level from position `i` on is `ms`.
abbrev pub From : List Maker → ℕ → List Maker → Type 0
From makers i ms = (j : ℕ) → get_elem? makers (j + i) ≡ get_elem? ms j

pub From-tail :
    (makers : List Maker) (i : ℕ) (m : Maker) (ms : List Maker)
    → From makers i (m ∷ ms)
    → From makers (i + 1) ms
From-tail makers i m ms h j = let e : j + (i + 1) ≡ suc j + i = omega arith in rw e (h (suc j))

assert_loop_fill :
    (last : Option ℕ) (acc i s lot : ℕ) (fs : List Fill) (makers : List Maker) (m : Maker)
    → exceeds i last ≡ true
    → fill_ok (record { order_index = i; quantity = s }) (some m) lot ≡ true
    → get_elem? makers i ≡ some m
    → assert_loop last acc (record { order_index = i; quantity = s } ∷ fs) makers lot
      ≡ assert_loop (some i) (add_u128 acc s) fs makers lot
unfolding assert_loop
assert_loop_fill last acc i s lot fs makers m e o g = rw (g, e, o) refl

pub collect_pos :
    (i s : ℕ) (ss : List ℕ)
    → 0 < s
    → collect i (s ∷ ss) ≡ record { order_index = i; quantity = s } ∷ collect (i + 1) ss
unfolding collect
collect_pos i s ss h = ground arith

pub collect_zero : (i s : ℕ) (ss : List ℕ) → s ≡ 0 → collect i (s ∷ ss) ≡ collect (i + 1) ss
unfolding collect
collect_zero i s ss h = ground arith

-- Fills made from shares within the makers pass every assertion of the loop.
assert_loop-collect :
    (makers : List Maker) (lot : ℕ) (ms : List Maker) (shares : List ℕ) (last : Option ℕ)
    (acc i : ℕ)
    → From makers i ms
    → exceeds i last ≡ true
    → Within shares ms
    → IsLots lot shares
    → acc + sum shares < u128_mod
    → assert_loop last acc (collect i shares) makers lot ≡ some (acc + sum shares)
assert_loop-collect makers lot [] [] last acc i f e w l b =
    unfold assert_loop collect in ap some (omega arith)
assert_loop-collect makers lot (m ∷ ms) [] last acc i f e w l b = elim w [ ]
assert_loop-collect makers lot [] (s ∷ ss) last acc i f e w l b = elim w [ ]
assert_loop-collect makers lot (m ∷ ms) (s ∷ ss) last acc i f e w l b = elim (dec_lt 0 s) [
  | yes p ↦
      let here : get_elem? makers i ≡ some m = (let z : i ≡ 0 + i = omega arith in rw z (f 0)) in
      let total : acc + s + sum ss ≡ acc + (s + sum ss) = omega arith in
      rw (
        collect_pos i s ss p,
        assert_loop_fill last acc i s lot (collect (i + 1) ss) makers m e
            (fill_ok_of i s lot m p w.0 l.0) here,
        add_u128_lem acc s (omega arith),
        assert_loop-collect makers lot ms ss (some i) (acc + s) (i + 1) (From-tail makers i m ms f)
            (exceeds_next i) w.1 l.1 (omega arith),
        total,
      )
  | no p ↦
      let zero_share : s ≡ 0 = omega arith in
      let total : acc + sum ss ≡ acc + (s + sum ss) = omega arith in
      rw (
        collect_zero i s ss zero_share,
        assert_loop-collect makers lot ms ss last acc (i + 1) (From-tail makers i m ms f)
            (exceeds-suc i last e) w.1 l.1 (omega arith),
        total,
      )
]

-- Shares within the makers, in whole lots, that add up to what is owed pass the contract.
pub debug_assert_fills-collect :
    (makers : List Maker) (lot available : ℕ) (shares : List ℕ)
    → IsU64Level makers
    → Within shares makers
    → IsLots lot shares
    → sum shares ≡ min available (sum (remaining makers))
    → debug_assert_fills (collect 0 shares) available makers lot ≡ true
unfolding debug_assert_fills exceeds
debug_assert_fills-collect makers lot available shares v w l e =
    rw
      (
        assert_loop-collect makers lot makers shares none 0 0
            (λ j. let z : j + 0 ≡ j = omega arith in rw z) refl w l
            (omega (arith, sum-remaining-lt makers v)),
        debug_assert_fills,
        level_total-eq-sum makers v,
      )
      (eq→== _ _ (omega arith))
