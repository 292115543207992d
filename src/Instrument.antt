-- ===== src/Instrument.antt =====
-- src/instrument.rs: the tick and lot grid of one instrument, and its admission policy.
-- The newtypes `Price`, `Qty`, `Ticks` (of u64) and `Notional` (of u128) stand as their numbers.
pub mod Configured
pub mod Convert
mod Tests
pub mod Admission
use Prim.Native.String.{String}
use order_book.Prelude.{
  ℕ, ◌-◌, ◌*◌, ◌/◌, ◌%◌, Bool, Option, none, some, Result, ok, err, guard, ◌>>=◌, ◌>>◌, ltb, leb,
  ◌==◌, if◌then◌else◌, add_u64, sub_u64, mul_u128, ◌||◌, List, [], ◌∷◌, max, min,
}

-- In minor units of the quote currency.
abbrev pub Price : Type 0
Price = ℕ

-- In base units of the asset.
abbrev pub Qty : Type 0
Qty = ℕ

abbrev pub Ticks : Type 0
Ticks = ℕ

abbrev pub Notional : Type 0
Notional = ℕ

abbrev pub is_zero : Qty → Bool
is_zero q = q == 0

-- `+` and `-` of `Qty`, which wrap as those of u64 do in a release build.
abbrev pub add_qty : Qty → Qty → Qty
add_qty a b = add_u64 a b

abbrev pub sub_qty : Qty → Qty → Qty
sub_qty a b = sub_u64 a b

-- `Sum for Qty`: a fold from the left.
unfoldable pub sum_qty : Qty → List Qty → Qty
sum_qty acc [] = acc
sum_qty acc (q ∷ qs) = sum_qty (add_qty acc q) qs

pub record InstrumentSpec : Type 0 where
  pub price_scale : ℕ
  pub qty_scale : ℕ
  pub tick_size : ℕ
  pub lot_size : ℕ
  pub min_price : Price
  pub max_price : Option Price
  pub min_qty : Qty
  pub max_qty : Option Qty
  pub min_notional : Option Notional

-- The error type over the decimals that its variants carry.
pub data SpecError (D : Type 0) : Type 0 where
  price_negative : D → SpecError D
  price_too_precise : D → ℕ → SpecError D
  price_off_tick : D → D → SpecError D
  price_out_of_range : D → SpecError D
  qty_negative : D → SpecError D
  qty_too_precise : D → ℕ → SpecError D
  qty_off_lot : D → D → SpecError D
  qty_out_of_range : D → SpecError D
  invalid_spec : String → SpecError D

pub data RejectReason : Type 0 where
  price_below_minimum price_above_maximum : Price → Price → RejectReason
  quantity_below_minimum quantity_above_maximum : Qty → Qty → RejectReason
  notional_below_minimum : Notional → Notional → RejectReason

abbrev pub max_scale : ℕ
max_scale = 28

-- `InstrumentSpec::new`
unfoldable pub new : {D : Type 0} → ℕ → ℕ → ℕ → ℕ → Result (SpecError D) InstrumentSpec
new price_scale qty_scale tick_size lot_size =
    if ltb max_scale price_scale || ltb max_scale qty_scale
    then err (invalid_spec "scale exceeds the 28 decimal places rust_decimal can carry")
    else if tick_size == 0
    then err (invalid_spec "tick_size must be non-zero")
    else if lot_size == 0
    then err (invalid_spec "lot_size must be non-zero")
    else ok (record {
      price_scale = price_scale;
      qty_scale = qty_scale;
      tick_size = tick_size;
      lot_size = lot_size;
      min_price = tick_size;
      max_price = none;
      min_qty = lot_size;
      max_qty = none;
      min_notional = none;
    })

-- `InstrumentSpec::cents`
unfoldable pub cents : {D : Type 0} → Result (SpecError D) InstrumentSpec
unfolding new
cents = new 2 0 1 1

-- The checks of `with_price_range` and `with_qty_range` on a lower and an optional upper bound.
unfoldable pub check_max :
    {D : Type 0} → ℕ → ℕ → Option ℕ → String → String → Result (SpecError D) (Unit {0})
check_max grid lo none off below = ok tt
check_max grid lo (some hi) off below = do
  guard (hi % grid == 0) (invalid_spec off)
  guard (leb lo hi) (invalid_spec below)

unfoldable pub with_price_range :
    {D : Type 0} → InstrumentSpec → Price → Option Price → Result (SpecError D) InstrumentSpec
with_price_range spec lo hi = do
  guard (lo % spec.tick_size == 0) (invalid_spec "min_price is not on the tick grid")
  check_max spec.tick_size lo hi "max_price is not on the tick grid" "max_price below min_price"
  ok (record spec { min_price = lo; max_price = hi })

unfoldable pub with_qty_range :
    {D : Type 0} → InstrumentSpec → Qty → Option Qty → Result (SpecError D) InstrumentSpec
with_qty_range spec lo hi = do
  guard (lo % spec.lot_size == 0) (invalid_spec "min_qty is not on the lot grid")
  check_max spec.lot_size lo hi "max_qty is not on the lot grid" "max_qty below min_qty"
  ok (record spec { min_qty = lo; max_qty = hi })

-- `a.abs_diff(b) / tick_size`
unfoldable pub ticks_between : InstrumentSpec → Price → Price → Ticks
ticks_between spec a b = (max a b - min a b) / spec.tick_size

unfoldable pub notional : Price → Qty → Notional
notional price qty = mul_u128 price qty

unfoldable pub above_max : ℕ → Option ℕ → Option ℕ
above_max x none = none
above_max x (some hi) = if ltb hi x then some hi else none

unfoldable pub admits_price : InstrumentSpec → Price → Result RejectReason (Unit {0})
admits_price spec price =
    if ltb price spec.min_price
    then err (price_below_minimum price spec.min_price)
    else elim (above_max price spec.max_price) [
      | some hi ↦ err (price_above_maximum price hi)
      | none ↦ ok tt
    ]

unfoldable pub admits_qty : InstrumentSpec → Qty → Result RejectReason (Unit {0})
admits_qty spec qty =
    if ltb qty spec.min_qty
    then err (quantity_below_minimum qty spec.min_qty)
    else elim (above_max qty spec.max_qty) [
      | some hi ↦ err (quantity_above_maximum qty hi)
      | none ↦ ok tt
    ]

unfoldable pub check_notional : Option Notional → Notional → Result RejectReason (Unit {0})
check_notional none value = ok tt
check_notional (some lo) value =
    if ltb value lo then err (notional_below_minimum value lo) else ok tt

unfoldable pub admits_notional : InstrumentSpec → Price → Qty → Result RejectReason (Unit {0})
unfolding check_notional notional
admits_notional spec price qty = check_notional spec.min_notional (notional price qty)
