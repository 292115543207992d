-- ===== src/Instrument/Convert/Split.antt =====
-- `split_minor` is the exact floor of a decimal on the grid, and finds it whenever it fits u64.
use order_book.Prelude.{
  ℕ, ◌+◌, ◌-◌, ◌*◌, ◌/◌, ◌%◌, ◌^◌, ◌<◌, ◌≤◌, ◌≡◌, refl, ap, Bool, true, false, not, some, ok, err,
  ◌==◌, pos, u64_mod, arith, dec_le, dec_lt, floor_lot, mul_mono, div-lt, lt_of_mul-lt,
  le_of_mul-le, pow_add, le→leb, lt→leb, lt→ltb, le→ltb,
}
use native.Mathlib.Nat.{pow-le-pow_right, one-le-pow, div-add-mod', le-div_iff_mul-le}
use order_book.Instrument.Convert.{too_large, i128_max, pow10, split_mantissa, split_minor}

-- `minor` is the floor of `m / a` on the grid `1 / b`, and `left` says whether anything is below it.
pub record IsFloor (m a b minor : ℕ) (left : Bool) : Type 0 where
  pub lower : minor * a ≤ m * b
  pub upper : m * b < (minor + 1) * a
  pub exact : left ≡ false → minor * a ≡ m * b
  pub inexact : left ≡ true → minor * a < m * b
  pub fits : minor < u64_mod

-- A grid at least as fine as the decimal.
IsFloor-fine :
    (m a b shift : ℕ)
    → 0 < a
    → shift * a ≡ b
    → m * shift < u64_mod
    → IsFloor m a b (m * shift) false
IsFloor-fine m a b shift p e h =
    let same : m * shift * a ≡ m * b = rw (← e) (omega arith) in
    record {
      lower = omega arith;
      upper = omega arith;
      exact = λ _. same;
      inexact = λ f. cc;
      fits = h;
    }

-- A grid coarser than the decimal.
IsFloor-coarse :
    (m a b shift : ℕ)
    → 0 < b
    → 0 < shift
    → shift * b ≡ a
    → m / shift < u64_mod
    → IsFloor m a b (m / shift) (not (m % shift == 0))
IsFloor-coarse m a b shift p q e h =
    let f = floor_lot m shift q in
    let at_grid : m / shift * a ≡ m / shift * shift * b = rw (← e) (omega arith) in
    record {
      lower = rw at_grid (mul_mono (m / shift * shift) m b f.0);
      upper =
          omega (
            arith,
            at_grid,
            e,
            mul_mono (m + 1) (m / shift * shift + shift) b (omega (arith, f.1)),
          );
      exact = λ z.
          let r : m % shift ≡ 0 = ground arith in
          let whole : m / shift * shift ≡ m = omega (arith, div-add-mod' m shift) in
          omega (arith, at_grid, ap (λ (x : ℕ). x * b) whole);
      inexact = λ z.
          let r : 0 < m % shift = ground arith in
          let more : m / shift * shift + 1 ≤ m = omega (arith, div-add-mod' m shift) in
          omega (arith, at_grid, mul_mono (m / shift * shift + 1) m b more);
      fits = h;
    }

pub pow-sub : (m n : ℕ) → m ≤ n → 10 ^ (n - m) * 10 ^ m ≡ 10 ^ n
pow-sub m n h = let e : n - m + m ≡ n = omega arith in rw (← pow_add 10 (n - m) m, e)

pow10_lem : (n : ℕ) → n ≤ 38 → pow10 n ≡ some (10 ^ n)
unfolding pow10
pow10_lem n h =
    let small : 10 ^ n < i128_max =
      (let top = pow-le-pow_right {n = 10} (omega arith) h in omega (arith, top)) in
    rw (le→ltb 38 n h, lt→ltb (10 ^ n) i128_max small)

module _ (m value_scale scale : ℕ) (v : value_scale ≤ 28) (s : scale ≤ 28) where
  abbrev Splits : Type 0
  Splits =
      (minor : ℕ) × (left : Bool) × (split_minor (pos m) value_scale scale ≡ ok (minor, left))
      × IsFloor m (10 ^ value_scale) (10 ^ scale) minor left

  split_fine : value_scale ≤ scale → m * 10 ^ scale < u64_mod * 10 ^ value_scale → Splits
  unfolding split_minor split_mantissa
  split_fine fine h =
      let shift : ℕ = 10 ^ (scale - value_scale) in
      let grid = pow-sub value_scale scale fine in
      let same : m * shift * 10 ^ value_scale ≡ m * 10 ^ scale = rw (← grid) (omega arith) in
      let small : m * shift < u64_mod = lt_of_mul-lt _ _ (10 ^ value_scale) (omega (arith, same)) in
      (
        m * shift,
        false,
        rw
            (
              le→leb value_scale scale fine,
              pow10_lem (scale - value_scale) (omega arith),
              lt→ltb (m * shift) i128_max (omega (arith, small)),
              lt→ltb (m * shift) u64_mod small,
            )
            refl,
        IsFloor-fine m (10 ^ value_scale) (10 ^ scale) shift
            (one-le-pow value_scale 10 (omega arith)) grid small,
      )

  split_coarse : scale < value_scale → m * 10 ^ scale < u64_mod * 10 ^ value_scale → Splits
  unfolding split_minor split_mantissa
  split_coarse coarse h =
      let shift : ℕ = 10 ^ (value_scale - scale) in
      let grid = pow-sub scale value_scale (omega arith) in
      let same : u64_mod * shift * 10 ^ scale ≡ u64_mod * 10 ^ value_scale =
        rw (← grid) (omega arith) in
      let shift_pos = one-le-pow (value_scale - scale) 10 (omega arith) in
      let small : m / shift < u64_mod =
        div-lt m shift u64_mod shift_pos
          (lt_of_mul-lt m (u64_mod * shift) (10 ^ scale) (omega (arith, same))) in
      (
        m / shift,
        not (m % shift == 0),
        rw
            (
              lt→leb value_scale scale coarse,
              pow10_lem (value_scale - scale) (omega arith),
              lt→ltb (m / shift) u64_mod small,
            )
            refl,
        IsFloor-coarse m (10 ^ value_scale) (10 ^ scale) shift (one-le-pow scale 10 (omega arith))
            shift_pos grid small,
      )

  -- With the scales that a decimal and an instrument can have, a value whose floor on the grid fits
  -- u64 is split, and the result is that floor.
  pub split_minor-IsFloor : m * 10 ^ scale < u64_mod * 10 ^ value_scale → Splits
  split_minor-IsFloor h = elim (dec_le value_scale scale) [
    | yes fine ↦ split_fine fine h
    | no coarse ↦ split_coarse (omega arith) h
  ]

  large_fine :
      value_scale ≤ scale
      → u64_mod * 10 ^ value_scale ≤ m * 10 ^ scale
      → split_minor (pos m) value_scale scale ≡ err too_large
  unfolding split_minor split_mantissa
  large_fine fine h =
      let shift : ℕ = 10 ^ (scale - value_scale) in
      let same : m * shift * 10 ^ value_scale ≡ m * 10 ^ scale =
        rw (← pow-sub value_scale scale fine) (omega arith) in
      let large : u64_mod ≤ m * shift =
        le_of_mul-le u64_mod (m * shift) (10 ^ value_scale)
          (one-le-pow value_scale 10 (omega arith)) (omega (arith, same)) in
      rw (le→leb value_scale scale fine, pow10_lem (scale - value_scale) (omega arith))
        (ground (arith, large))

  large_coarse :
      scale < value_scale
      → u64_mod * 10 ^ value_scale ≤ m * 10 ^ scale
      → split_minor (pos m) value_scale scale ≡ err too_large
  unfolding split_minor split_mantissa
  large_coarse coarse h =
      let shift : ℕ = 10 ^ (value_scale - scale) in
      let same : u64_mod * shift * 10 ^ scale ≡ u64_mod * 10 ^ value_scale =
        rw (← pow-sub scale value_scale (omega arith)) (omega arith) in
      let large : u64_mod ≤ m / shift =
        (le-div_iff_mul-le (one-le-pow (value_scale - scale) 10 (omega arith))).1 (
          le_of_mul-le (u64_mod * shift) m (10 ^ scale) (one-le-pow scale 10 (omega arith))
            (omega (arith, same))) in
      rw
        (
          lt→leb value_scale scale coarse,
          pow10_lem (value_scale - scale) (omega arith),
          le→ltb (m / shift) u64_mod large,
        )
        refl

  -- A value whose floor does not fit u64 is refused as too large.
  pub split_minor_large :
      u64_mod * 10 ^ value_scale ≤ m * 10 ^ scale
      → split_minor (pos m) value_scale scale ≡ err too_large
  split_minor_large h = elim (dec_le value_scale scale) [
    | yes fine ↦ large_fine fine h
    | no coarse ↦ large_coarse (omega arith) h
  ]

  -- What a successful split returns is the floor.
  pub IsFloor-of_split :
      (minor : ℕ) (left : Bool)
      → split_minor (pos m) value_scale scale ≡ ok (minor, left)
      → IsFloor m (10 ^ value_scale) (10 ^ scale) minor left
  IsFloor-of_split minor left e = elim (dec_lt (m * 10 ^ scale) (u64_mod * 10 ^ value_scale)) [
    | yes small ↦
        let (minor', left', e', f) = split_minor-IsFloor small in
        let same_minor : minor' ≡ minor = ground (arith, e, e') in
        let same_left : left' ≡ left = ground (arith, e, e') in rw (← same_minor, ← same_left) f
    | no large ↦ cc (e, split_minor_large (omega arith))
  ]
