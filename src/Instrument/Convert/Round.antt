-- ===== src/Instrument/Convert/Round.antt =====
-- Rounding lands on the grid, on the named side, and less than a tick away; a floor on the notional
-- is rounded up by less than a unit.
use order_book.Prelude.{
  ℕ, ◌+◌, ◌*◌, ◌/◌, ◌%◌, ◌^◌, ◌<◌, ◌≤◌, ◌≡◌, refl, ap, Bool, true, false, some, Result, ok, err, ℤ,
  pos, negsuc, arith, inl, inr, mod-eq-zero_of_dvd, dvd-mul_left, mul_mono, ◌≢◌, ◌⊎◌, floor_lot,
}
use native.Mathlib.Nat.{one-le-pow, div-add-mod'}
use order_book.Instrument.{InstrumentSpec, Price}
use order_book.Instrument.Convert.{
  Sign, too_large, negative, split_minor, Decimal, Rounding, rounds_up, round_minor, round_of_split,
  round_price,
}
use order_book.Instrument.Convert.Exact.{split_negative}
use order_book.Instrument.Convert.Split.{IsFloor, IsFloor-of_split}

-- Where a rounded price lies, on the grid, from the value `m / a` on the grid `1 / b`.
pub record Rounded (m a b tick : ℕ) (moves_up : Bool) (p : ℕ) : Type 0 where
  pub grid : p % tick ≡ 0
  pub floor : moves_up ≡ false → (p * a ≤ m * b) × (m * b < (p + tick) * a)
  pub ceiling : moves_up ≡ true → (m * b ≤ p * a) × (p * a < m * b + tick * a)

-- The two results of `round_minor`.
round_minor_cases :
    (tick minor : ℕ) (left moves_up : Bool) (p : ℕ)
    → round_minor tick minor left moves_up ≡ some p
    → ((p ≡ minor / tick * tick) × ((moves_up ≡ false) ⊎ ((minor % tick ≡ 0) × (left ≡ false))))
      ⊎ ((p ≡ (minor / tick + 1) * tick) × (moves_up ≡ true) × ((minor % tick ≢ 0) ⊎ (left ≡ true)))
unfolding round_minor
round_minor_cases tick minor left moves_up p e = ground arith

module _ (m a b tick minor : ℕ) (left : Bool) (t : 0 < tick) (u : 0 < a)
    (f : IsFloor m a b minor left) where
  abbrev lower_tick : ℕ
  lower_tick = minor / tick * tick

  lower_tick_bounds : (lower_tick ≤ minor) × (minor < lower_tick + tick)
  lower_tick_bounds = floor_lot minor tick t

  -- The tick below.
  down-Rounded :
      (moves_up : Bool)
      → (moves_up ≡ false) ⊎ ((minor % tick ≡ 0) × (left ≡ false))
      → Rounded m a b tick moves_up lower_tick
  down-Rounded moves_up side =
      let w = lower_tick_bounds in
      record {
        grid = mod-eq-zero_of_dvd tick (dvd-mul_left tick (minor / tick));
        floor = λ _. (
          omega (arith, mul_mono lower_tick minor a w.0, f.lower),
          omega (arith, mul_mono (minor + 1) (lower_tick + tick) a (omega (arith, w.1)), f.upper),
        );
        ceiling = λ isup. elim side [
          | inl isdown ↦ cc (isup, isdown)
          | inr (on_grid, nothing) ↦
              let same : lower_tick ≡ minor = omega (arith, div-add-mod' minor tick, on_grid) in
              let value = f.exact nothing in
              let moved = ap (λ (x : ℕ). x * a) same in
              (omega (arith, moved, value), omega (arith, moved, value, mul_mono 1 tick a t, u))
        ];
      }

  -- The lower tick lies strictly below an inexact value.
  lower_tick-lt : (minor % tick ≢ 0) ⊎ (left ≡ true) → lower_tick * a < m * b
  lower_tick-lt (inl off) =
      let below : lower_tick + 1 ≤ minor = omega (arith, div-add-mod' minor tick, off) in
      omega (arith, mul_mono (lower_tick + 1) minor a below, f.lower, u)
  lower_tick-lt (inr some_left) =
      omega (arith, mul_mono lower_tick minor a lower_tick_bounds.0, f.inexact some_left)

  -- The tick above.
  up-Rounded :
      (moves_up : Bool)
      → moves_up ≡ true
      → (minor % tick ≢ 0) ⊎ (left ≡ true)
      → Rounded m a b tick moves_up ((minor / tick + 1) * tick)
  up-Rounded moves_up isup inexact =
      let w = lower_tick_bounds in
      let next : ℕ = (minor / tick + 1) * tick in
      record {
        grid = mod-eq-zero_of_dvd tick (dvd-mul_left tick (minor / tick + 1));
        floor = λ isdown. cc (isup, isdown);
        ceiling = λ _. (
          omega (arith, mul_mono (minor + 1) next a (omega (arith, w.1)), f.upper),
          omega (arith, lower_tick-lt inexact),
        );
      }

  round_minor-Rounded :
      (moves_up : Bool) (p : ℕ)
      → round_minor tick minor left moves_up ≡ some p
      → Rounded m a b tick moves_up p
  round_minor-Rounded moves_up p e = elim (round_minor_cases tick minor left moves_up p e) [
    | inl (q, side) ↦ rw q (down-Rounded moves_up side)
    | inr (q, isup, inexact) ↦ rw q (up-Rounded moves_up isup inexact)
  ]

round_of_split_cases :
    (decimal : Decimal) (spec : InstrumentSpec) (d : decimal.Value) (rounding : Rounding)
    (r : Result Sign (ℕ × Bool)) (p : Price)
    → round_of_split decimal spec d rounding r ≡ ok p
    → (minor : ℕ) × (left : Bool) × (r ≡ ok (minor, left))
      × (round_minor spec.tick_size minor left (rounds_up rounding) ≡ some p)
unfolding round_of_split
round_of_split_cases decimal spec d rounding (ok (minor, left)) p e =
    (minor, left, refl, ground arith)
round_of_split_cases decimal spec d rounding (err negative) p e = cc
round_of_split_cases decimal spec d rounding (err too_large) p e = cc

-- A price that `round_price` returns is on the tick grid; when the rounding goes down it is the last
-- tick at or below the decimal, and when it goes up the first at or above. The tick is not zero and
-- the instrument's scale and the decimal's are at most 28.
pub round_price-Rounded :
    (decimal : Decimal) (spec : InstrumentSpec) (d : decimal.Value) (rounding : Rounding)
    (p : Price)
    → 0 < spec.tick_size
    → spec.price_scale ≤ 28
    → decimal.scale d ≤ 28
    → round_price decimal spec d rounding ≡ ok p
    → (m : ℕ) × (decimal.mantissa d ≡ pos m)
      × Rounded m
          (10 ^ decimal.scale d)
          (10 ^ spec.price_scale)
          spec.tick_size
          (rounds_up rounding)
          p
unfolding round_price
round_price-Rounded decimal spec d rounding p t g v e =
    let (minor, left, split, rounds) = round_of_split_cases decimal spec d rounding _ p e in
    of_mantissa (decimal.mantissa d) minor left split rounds
  where
    of_mantissa :
        (z : ℤ) (minor : ℕ) (left : Bool)
        → split_minor z (decimal.scale d) spec.price_scale ≡ ok (minor, left)
        → round_minor spec.tick_size minor left (rounds_up rounding) ≡ some p
        → (m : ℕ) × (z ≡ pos m)
          × Rounded m
              (10 ^ decimal.scale d)
              (10 ^ spec.price_scale)
              spec.tick_size
              (rounds_up rounding)
              p
    of_mantissa (pos m) minor left split rounds =
        let f = IsFloor-of_split m (decimal.scale d) spec.price_scale v g minor left split in
        let unit = one-le-pow (decimal.scale d) 10 (omega arith) in
        (
          m,
          refl,
          round_minor-Rounded m _ (10 ^ spec.price_scale) spec.tick_size minor left t unit f
              (rounds_up rounding) p rounds,
        )
    of_mantissa (negsuc k) minor left split rounds = cc (split, split_negative k _ spec.price_scale)
