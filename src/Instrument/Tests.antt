-- ===== src/Instrument/Tests.antt =====
-- The instrument's grid at concrete inputs.
use order_book.Prelude.{
  ℕ, ◌^◌, ◌%◌, ◌≡◌, ◌<◌, refl, true, false, OnOk, some, none, ok, arith, ℤ, pos, u64_mod,
}
use order_book.Instrument.{InstrumentSpec, new, with_qty_range, check_max, admits_price, admits_qty}
use order_book.Instrument.Admission.{IsValidSpec}
use order_book.Instrument.Configured.{
  Configured, made, with_quantities, IsGuarded, Configured-IsValidSpec,
}
use order_book.Instrument.Convert.{
  Decimal, up, price, price_of_split, price_from_minor, round_price, round_of_split, round_minor,
  with_min_notional, notional_to_decimal, rounds_up, split_minor, split_mantissa, pow10, to_decimal,
}
use order_book.Instrument.Convert.Ceiling.{
  IsCeiling, with_min_notional-IsCeiling, with_min_notional-notional_to_decimal,
}
use order_book.Instrument.Convert.Exact.{Equals, price_is_exact, price-to_decimal}
use order_book.Instrument.Convert.Round.{Rounded, round_price-Rounded}

-- A decimal as its mantissa and its scale.
abbrev pairs : Decimal
pairs = record {
  Value = ℤ × ℕ;
  mantissa = λ d. d.0;
  scale = λ d. d.1;
  from_i128_with_scale = λ m s. (m, s);
  mantissa-from = λ n s h k. refl;
  scale-from = λ n s h k. refl;
}

-- Cents on a tick of 0.25, lots of five.
abbrev quarters : InstrumentSpec
quarters = record {
  price_scale = 2;
  qty_scale = 0;
  tick_size = 25;
  lot_size = 5;
  min_price = 25;
  max_price = none;
  min_qty = 5;
  max_qty = none;
  min_notional = none;
}

quarters-new : new {D = ℤ × ℕ} 2 0 25 5 ≡ ok quarters
unfolding new
quarters-new = refl

quarters_made : Configured pairs false false quarters
quarters_made = made 2 0 25 5 quarters-new

-- The same with quantities of ten to a hundred.
abbrev bounded : InstrumentSpec
bounded = record quarters { min_qty = 10; max_qty = some 100 }

quarters_bounded : with_qty_range {D = ℤ × ℕ} quarters 10 (some 100) ≡ ok bounded
unfolding with_qty_range check_max
quarters_bounded = refl

Configured-IsValidSpec_example :
    IsValidSpec bounded
    × IsGuarded false (admits_price bounded 0)
    × IsGuarded true (admits_qty bounded 0)
Configured-IsValidSpec_example =
    Configured-IsValidSpec pairs false true bounded
      (with_quantities 10 (some 100) quarters_made quarters_bounded)

-- 100.5 is 10050 cents.
half_read : price pairs quarters (pos 1005, 1) ≡ ok 10050
unfolding price price_of_split price_from_minor split_minor split_mantissa pow10
half_read = refl

-- 100.3 rounds up to 100.50.
third_rounds : round_price pairs quarters (pos 1003, 1) up ≡ ok 10050
unfolding round_price round_of_split round_minor rounds_up split_minor split_mantissa pow10
third_rounds = refl

price_is_exact_example :
    (m : ℕ) × (◌≡◌ {A = ℤ} (pos 1005) (pos m))
    × Equals 10050 2 m 1
    × (10050 < u64_mod)
    × (10050 % 25 ≡ 0)
price_is_exact_example =
    price_is_exact pairs quarters (pos 1005, 1) 10050 (omega arith) (omega arith) half_read

price-to_decimal_example : price pairs quarters (to_decimal pairs quarters 10050) ≡ ok 10050
price-to_decimal_example = price-to_decimal pairs quarters 10050 (omega arith) (omega arith) refl

round_price-Rounded_example :
    (m : ℕ) × (◌≡◌ {A = ℤ} (pos 1003) (pos m)) × Rounded m (10 ^ 1) (10 ^ 2) 25 (rounds_up up) 10050
round_price-Rounded_example =
    round_price-Rounded pairs quarters (pos 1003, 1) up 10050 (omega arith) (omega arith)
      (omega arith) third_rounds

-- A notional of 12.345 at the grid of 0.01 is at least 12.35.
with_min_notional-IsCeiling_example :
    OnOk
      (λ spec'.
        (n : ℕ) × (m : ℕ) × (spec' ≡ record quarters { min_notional = some n })
        × (◌≡◌ {A = ℤ} (pos 12345) (pos m))
        × IsCeiling n 2 m 3)
      (with_min_notional pairs quarters (pos 12345, 3))
with_min_notional-IsCeiling_example = with_min_notional-IsCeiling pairs quarters (pos 12345, 3)

with_min_notional-notional_to_decimal_example :
    with_min_notional pairs quarters (notional_to_decimal pairs quarters 1235)
    ≡ ok (record quarters { min_notional = some 1235 })
with_min_notional-notional_to_decimal_example =
    with_min_notional-notional_to_decimal pairs quarters 1235 (omega arith) (omega arith)
