-- ===== src/Instrument/Convert.antt =====
-- The conversions of src/instrument.rs between decimals and the grid. `rust_decimal` is not part of
-- the repository: the three functions of it that the code calls are a parameter.
pub mod Split
pub mod Exact
pub mod Round
pub mod Ceiling
use order_book.Prelude.{
  ℕ, ◌+◌, ◌-◌, ◌*◌, ◌/◌, ◌%◌, ◌^◌, ◌<◌, ◌≤◌, ◌≡◌, Bool, true, false, not, ◌&&◌, Option, none, some,
  Result, ok, err, guard, ok_or, ◌>>=◌, ◌>>◌, ltb, leb, ◌==◌, if◌then◌else◌, ℤ, pos, negsuc,
  checked, u32_mod, u64_mod, u128_mod,
}
use order_book.Side.{Side, ask, bid}
use order_book.Instrument.{
  Price, Qty, Notional, InstrumentSpec, SpecError, price_negative, price_too_precise,
  price_off_tick, price_out_of_range, qty_negative, qty_too_precise, qty_off_lot, qty_out_of_range,
  invalid_spec,
}

-- A decimal is a mantissa over a power of ten. What the code relies on: a decimal made from a
-- mantissa of at most 96 bits and a scale of at most 28 has that mantissa and that scale.
pub record Decimal : Type 1 where
  pub Value : Type 0
  pub mantissa : Value → ℤ
  pub scale : Value → ℕ
  pub from_i128_with_scale : ℤ → ℕ → Value
  pub mantissa-from :
      (n s : ℕ) → n < 2 ^ 96 → s ≤ 28 → mantissa (from_i128_with_scale (pos n) s) ≡ pos n
  pub scale-from : (n s : ℕ) → n < 2 ^ 96 → s ≤ 28 → scale (from_i128_with_scale (pos n) s) ≡ s

-- `enum Sign`: why a decimal is no unsigned integer at all.
pub data Sign : Type 0 where
  negative too_large : Sign

pub data Rounding : Type 0 where
  down up : Rounding
  toward_passive : Side → Rounding

abbrev pub i128_max : ℕ
i128_max = 2 ^ 127

-- `10^n` as an i128.
unfoldable pub pow10 : ℕ → Option ℕ
pow10 n = if ltb 38 n then none else checked i128_max (10 ^ n)

-- The quotient and remainder of `split_minor`, for a mantissa that is not negative.
unfoldable pub split_mantissa : ℕ → ℕ → ℕ → Result Sign (ℕ × ℕ)
split_mantissa m value_scale scale =
    if leb value_scale scale
    then (do
      shift ← ok_or (pow10 (scale - value_scale)) too_large
      product ← ok_or (checked i128_max (m * shift)) too_large
      ok (product, 0))
    else do shift ← ok_or (pow10 (value_scale - scale)) too_large; ok (m / shift, m % shift)

-- `split_minor` on a mantissa and its scale: the floor on the grid of `10^-scale`, and whether
-- anything is left below it.
unfoldable pub split_minor : ℤ → ℕ → ℕ → Result Sign (ℕ × Bool)
split_minor (negsuc k) value_scale scale = err negative
split_minor (pos m) value_scale scale = do
  split ← split_mantissa m value_scale scale
  minor ← ok_or (checked u64_mod split.0) too_large
  ok (minor, not (split.1 == 0))

-- `ceil(d · 10^scale)` as a u128.
unfoldable pub ceil_mantissa : ℕ → ℕ → ℕ → Option ℕ
ceil_mantissa m value_scale scale =
    if leb value_scale scale
    then elim (checked u128_mod (10 ^ (scale - value_scale))) [
      | none ↦ none
      | some shift ↦ checked u128_mod (m * shift)
    ]
    else elim (checked u128_mod (10 ^ (value_scale - scale))) [
      | none ↦ none
      | some shift ↦
          if ltb 0 (m % shift) then checked u128_mod (m / shift + 1) else some (m / shift)
    ]

unfoldable pub ceil_scaled : ℤ → ℕ → ℕ → Option ℕ
ceil_scaled (negsuc k) value_scale scale = none
ceil_scaled (pos m) value_scale scale = ceil_mantissa m value_scale scale

-- `match rounding`: does the price move up?
unfoldable pub rounds_up : Rounding → Bool
rounds_up down = false
rounds_up up = true
rounds_up (toward_passive bid) = false
rounds_up (toward_passive ask) = true

-- The arithmetic of `round_price`, from the floor in minor units on.
unfoldable pub round_minor : ℕ → ℕ → Bool → Bool → Option ℕ
round_minor tick floor_minor has_remainder moves_up =
    let down_tick = floor_minor / tick in
    let exact = floor_minor % tick == 0 && not has_remainder in
    if moves_up && not exact
    then elim (checked u64_mod (down_tick + 1)) [
      | none ↦ none
      | some t ↦ checked u64_mod (t * tick)
    ]
    else some (down_tick * tick)

-- `n as i128` for a u128.
unfoldable pub as_i128 : ℕ → ℤ
as_i128 n = if ltb n i128_max then pos n else negsuc (u128_mod - n - 1)

module _ (decimal : Decimal) where
  open decimal use {Value, mantissa, scale, from_i128_with_scale}

  unfoldable pub tick_decimal : InstrumentSpec → Value
  tick_decimal spec = from_i128_with_scale (pos spec.tick_size) spec.price_scale

  unfoldable pub lot_decimal : InstrumentSpec → Value
  lot_decimal spec = from_i128_with_scale (pos spec.lot_size) spec.qty_scale

  unfoldable pub to_decimal : InstrumentSpec → Price → Value
  to_decimal spec price = from_i128_with_scale (pos price) spec.price_scale

  unfoldable pub qty_to_decimal : InstrumentSpec → Qty → Value
  qty_to_decimal spec qty = from_i128_with_scale (pos qty) spec.qty_scale

  unfoldable pub price_from_minor : InstrumentSpec → ℕ → Result (SpecError Value) Price
  price_from_minor spec minor =
      if minor % spec.tick_size == 0
      then ok minor
      else err
          (price_off_tick (from_i128_with_scale (pos minor) spec.price_scale) (tick_decimal spec))

  unfoldable pub qty_from_base : InstrumentSpec → ℕ → Result (SpecError Value) Qty
  qty_from_base spec base =
      if base % spec.lot_size == 0
      then ok base
      else err (qty_off_lot (from_i128_with_scale (pos base) spec.qty_scale) (lot_decimal spec))

  -- `map_err(|_| e)`
  abbrev or_else :
      {A : Type 0} → Result (SpecError Value) A → SpecError Value → Result (SpecError Value) A
  or_else (ok a) e = ok a
  or_else (err _) e = err e

  unfoldable pub price_of_split :
      InstrumentSpec → Value → Result Sign (ℕ × Bool) → Result (SpecError Value) Price
  price_of_split spec d (ok (minor, true)) = err (price_too_precise d spec.price_scale)
  price_of_split spec d (ok (minor, false)) =
      or_else (price_from_minor spec minor) (price_off_tick d (tick_decimal spec))
  price_of_split spec d (err negative) = err (price_negative d)
  price_of_split spec d (err too_large) = err (price_out_of_range d)

  unfoldable pub price : InstrumentSpec → Value → Result (SpecError Value) Price
  price spec d = price_of_split spec d (split_minor (mantissa d) (scale d) spec.price_scale)

  unfoldable pub qty_of_split :
      InstrumentSpec → Value → Result Sign (ℕ × Bool) → Result (SpecError Value) Qty
  qty_of_split spec d (ok (base, true)) = err (qty_too_precise d spec.qty_scale)
  qty_of_split spec d (ok (base, false)) =
      or_else (qty_from_base spec base) (qty_off_lot d (lot_decimal spec))
  qty_of_split spec d (err negative) = err (qty_negative d)
  qty_of_split spec d (err too_large) = err (qty_out_of_range d)

  unfoldable pub qty : InstrumentSpec → Value → Result (SpecError Value) Qty
  qty spec d = qty_of_split spec d (split_minor (mantissa d) (scale d) spec.qty_scale)

  unfoldable pub round_of_split :
      InstrumentSpec → Value → Rounding → Result Sign (ℕ × Bool) → Result (SpecError Value) Price
  round_of_split spec d rounding (ok (floor_minor, has_remainder)) =
      ok_or (round_minor spec.tick_size floor_minor has_remainder (rounds_up rounding))
        (price_out_of_range d)
  round_of_split spec d rounding (err negative) = err (price_negative d)
  round_of_split spec d rounding (err too_large) = err (price_out_of_range d)

  unfoldable pub round_price : InstrumentSpec → Value → Rounding → Result (SpecError Value) Price
  round_price spec d rounding =
      round_of_split spec d rounding (split_minor (mantissa d) (scale d) spec.price_scale)

  -- The sum of two scales of at most 28 cannot overflow u32.
  unfoldable pub with_min_notional :
      InstrumentSpec → Value → Result (SpecError Value) InstrumentSpec
  with_min_notional spec min_notional = do
    grid_scale ←
        ok_or (checked u32_mod (spec.price_scale + spec.qty_scale))
          (invalid_spec "price_scale + qty_scale overflows")
    least ←
        ok_or (ceil_scaled (mantissa min_notional) (scale min_notional) grid_scale)
          (invalid_spec "min_notional is negative or too large for the notional lattice")
    ok (record spec { min_notional = some least })

  unfoldable pub notional_to_decimal : InstrumentSpec → Notional → Value
  notional_to_decimal spec n = from_i128_with_scale (as_i128 n) (spec.price_scale + spec.qty_scale)
