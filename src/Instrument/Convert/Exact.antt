-- ===== src/Instrument/Convert/Exact.antt =====
-- A price or quantity that is read from a decimal is that decimal exactly, and on the grid; and a
-- price on the grid comes back from its own decimal.
use order_book.Prelude.{
  ℕ, ◌+◌, ◌*◌, ◌%◌, ◌^◌, ◌<◌, ◌≤◌, ◌≡◌, refl, ap, Bool, true, false, Result, ok, err, ℤ, pos,
  negsuc, u64_mod, arith, Bool-cases, inl, inr, eq→==, mul_mono, le_of_mul-le, lt_of_mul-lt, ◌≢◌,
}
use native.Mathlib.Nat.{one-le-pow}
use order_book.Instrument.{InstrumentSpec, Price, Qty}
use order_book.Instrument.Convert.{
  Sign, too_large, negative, split_minor, Decimal, price_from_minor, price_of_split, price,
  to_decimal, qty_from_base, qty_of_split, qty, qty_to_decimal,
}
use order_book.Instrument.Convert.Split.{IsFloor-of_split, split_minor-IsFloor}

-- `n` on the grid of `10 ^ -grid_scale` is the value of a decimal `m / 10 ^ value_scale`.
abbrev pub Equals : ℕ → ℕ → ℕ → ℕ → Type 0
Equals n grid_scale m value_scale = n * 10 ^ value_scale ≡ m * 10 ^ grid_scale

pub split_negative : (k vs gs : ℕ) → split_minor (negsuc k) vs gs ≡ err negative
unfolding split_minor
split_negative k vs gs = refl

-- A split with nothing below the grid is exact.
exact_of_split :
    (z : ℤ) (value_scale grid_scale n : ℕ)
    → value_scale ≤ 28
    → grid_scale ≤ 28
    → split_minor z value_scale grid_scale ≡ ok (n, false)
    → (m : ℕ) × (z ≡ pos m) × Equals n grid_scale m value_scale × (n < u64_mod)
exact_of_split (pos m) vs gs n v g e =
    let f = IsFloor-of_split m vs gs v g n false e in (m, refl, f.exact refl, f.fits)
exact_of_split (negsuc k) vs gs n v g e = cc (e, split_negative k vs gs)

-- A number on the grid is split back from the decimal of that number.
split_of_exact :
    (n grid_scale : ℕ)
    → grid_scale ≤ 28
    → n < u64_mod
    → split_minor (pos n) grid_scale grid_scale ≡ ok (n, false)
split_of_exact n gs g h =
    let unit = one-le-pow gs 10 (omega arith) in
    let (minor, left, e, f) =
      split_minor-IsFloor n gs gs g g
        (omega (arith, mul_mono (n + 1) u64_mod (10 ^ gs) (omega arith), unit)) in
    let low : minor ≤ n = le_of_mul-le minor n (10 ^ gs) unit f.lower in
    let high : n < minor + 1 = lt_of_mul-lt n (minor + 1) (10 ^ gs) f.upper in
    let same : minor ≡ n = omega arith in
    let lost : left ≢ true =
      λ z. absurd (omega (arith, f.inexact z, ap (λ (x : ℕ). x * 10 ^ gs) same)) in
    elim (Bool-cases left) [ inl z ↦ absurd (lost z) | inr z ↦ cc (e, same, z) ]

module _ (decimal : Decimal) (spec : InstrumentSpec) where
  open decimal use {Value, mantissa, scale, mantissa-from, scale-from}

  -- A successful conversion comes of an exact split to a point of the tick grid.
  price_of_split-ok :
      (d : Value) (r : Result Sign (ℕ × Bool)) (p : Price)
      → price_of_split decimal spec d r ≡ ok p
      → (r ≡ ok (p, false)) × (p % spec.tick_size ≡ 0)
  unfolding price_of_split price_from_minor
  price_of_split-ok d (ok (minor, true)) p e = cc
  price_of_split-ok d (ok (minor, false)) p e = ground arith
  price_of_split-ok d (err negative) p e = cc
  price_of_split-ok d (err too_large) p e = cc

  qty_of_split-ok :
      (d : Value) (r : Result Sign (ℕ × Bool)) (q : Qty)
      → qty_of_split decimal spec d r ≡ ok q
      → (r ≡ ok (q, false)) × (q % spec.lot_size ≡ 0)
  unfolding qty_of_split qty_from_base
  qty_of_split-ok d (ok (base, true)) q e = cc
  qty_of_split-ok d (ok (base, false)) q e = ground arith
  qty_of_split-ok d (err negative) q e = cc
  qty_of_split-ok d (err too_large) q e = cc

  -- A price that `price` returns is the decimal that it was given, exactly, is a whole number of
  -- ticks and fits u64, where the instrument's scale and the decimal's are at most 28.
  pub price_is_exact :
      (d : Value) (p : Price)
      → spec.price_scale ≤ 28
      → scale d ≤ 28
      → price decimal spec d ≡ ok p
      → (m : ℕ) × (mantissa d ≡ pos m)
        × Equals p spec.price_scale m (scale d)
        × (p < u64_mod)
        × (p % spec.tick_size ≡ 0)
  unfolding price
  price_is_exact d p g v e =
      let (split, grid) =
        price_of_split-ok d (split_minor (mantissa d) (scale d) spec.price_scale) p e in
      let (m, z, same, fits) = exact_of_split (mantissa d) (scale d) spec.price_scale p v g split in
      (m, z, same, fits, grid)

  -- A quantity that `qty` returns is the decimal that it was given, exactly, is a whole number of
  -- lots and fits u64, where the instrument's scale and the decimal's are at most 28.
  pub qty_is_exact :
      (d : Value) (q : Qty)
      → spec.qty_scale ≤ 28
      → scale d ≤ 28
      → qty decimal spec d ≡ ok q
      → (m : ℕ) × (mantissa d ≡ pos m)
        × Equals q spec.qty_scale m (scale d)
        × (q < u64_mod)
        × (q % spec.lot_size ≡ 0)
  unfolding qty
  qty_is_exact d q g v e =
      let (split, grid) =
        qty_of_split-ok d (split_minor (mantissa d) (scale d) spec.qty_scale) q e in
      let (m, z, same, fits) = exact_of_split (mantissa d) (scale d) spec.qty_scale q v g split in
      (m, z, same, fits, grid)

  -- A u64 price on the tick grid, written as a decimal and read back, is the same price, where the
  -- instrument's scale is at most 28.
  pub price-to_decimal :
      (p : Price)
      → spec.price_scale ≤ 28
      → p < u64_mod
      → p % spec.tick_size ≡ 0
      → price decimal spec (to_decimal decimal spec p) ≡ ok p
  unfolding price to_decimal price_of_split price_from_minor
  price-to_decimal p g h t = rw (
    mantissa-from p spec.price_scale (omega arith) g,
    scale-from p spec.price_scale (omega arith) g,
    split_of_exact p spec.price_scale g h,
    price_of_split,
    eq→== (p % spec.tick_size) 0 t,
  )

  -- A u64 quantity in whole lots, written as a decimal and read back, is the same quantity, where
  -- the instrument's scale is at most 28.
  pub qty-qty_to_decimal :
      (q : Qty)
      → spec.qty_scale ≤ 28
      → q < u64_mod
      → q % spec.lot_size ≡ 0
      → qty decimal spec (qty_to_decimal decimal spec q) ≡ ok q
  unfolding qty qty_to_decimal qty_of_split qty_from_base
  qty-qty_to_decimal q g h t = rw (
    mantissa-from q spec.qty_scale (omega arith) g,
    scale-from q spec.qty_scale (omega arith) g,
    split_of_exact q spec.qty_scale g h,
    qty_of_split,
    eq→== (q % spec.lot_size) 0 t,
  )
