-- ===== src/Instrument/Configured.antt =====
-- The specifications that `new` and the `with_` steps of src/instrument.rs lead to.
use order_book.Prelude.{
  ℕ, ◌<◌, ◌≡◌, sym, subst, Bool, true, false, Option, some, Result, ok, OnOk, arith,
}
use order_book.Instrument.{
  InstrumentSpec, Price, Qty, RejectReason, new, with_price_range, with_qty_range, admits_price,
  admits_qty,
}
use order_book.Instrument.Admission.{
  IsValidSpec, new_checks, new-IsValidSpec, with_price_range-IsValidSpec,
  with_qty_range-IsValidSpec,
}
use order_book.Instrument.Convert.{Decimal, with_min_notional}
use order_book.Instrument.Convert.Ceiling.{with_min_notional-IsCeiling}

-- The specifications that the constructors lead to: `priced` and `sized` say whether the price band
-- and the quantity range have been set.
pub data Configured (decimal : Decimal) : Bool → Bool → InstrumentSpec → Type 0 where
  made :
      (price_scale qty_scale tick_size lot_size : ℕ) {spec : InstrumentSpec}
      → new {D = decimal.Value} price_scale qty_scale tick_size lot_size ≡ ok spec
      → Configured decimal false false spec
  with_prices :
      {priced sized : Bool} {spec spec' : InstrumentSpec} (lo : Price) (hi : Option Price)
      → Configured decimal priced sized spec
      → with_price_range {D = decimal.Value} spec lo hi ≡ ok spec'
      → Configured decimal true sized spec'
  with_quantities :
      {priced sized : Bool} {spec spec' : InstrumentSpec} (lo : Qty) (hi : Option Qty)
      → Configured decimal priced sized spec
      → with_qty_range {D = decimal.Value} spec lo hi ≡ ok spec'
      → Configured decimal priced true spec'
  with_least :
      {priced sized : Bool} {spec spec' : InstrumentSpec} (least : decimal.Value)
      → Configured decimal priced sized spec
      → with_min_notional decimal spec least ≡ ok spec'
      → Configured decimal priced sized spec'

-- A lower bound that was not set is not zero.
abbrev IsFloor : Bool → ℕ → Type 0
IsFloor true lo = Unit {0}
IsFloor false lo = 0 < lo

-- A bound that was not set rejects.
abbrev pub IsGuarded : Bool → Result RejectReason (Unit {0}) → Type 0
IsGuarded true r = Unit {0}
IsGuarded false r = r ≡ ok tt → ⊥

abbrev Kept : Bool → Bool → InstrumentSpec → Type 0
Kept priced sized spec =
    IsValidSpec spec × IsFloor priced spec.min_price × IsFloor sized spec.min_qty

price-IsGuarded :
    (priced : Bool) (spec : InstrumentSpec)
    → IsFloor priced spec.min_price
    → IsGuarded priced (admits_price spec 0)
unfolding admits_price
price-IsGuarded true spec h = tt
price-IsGuarded false spec h = λ e. ground (arith, h, e)

qty-IsGuarded :
    (sized : Bool) (spec : InstrumentSpec)
    → IsFloor sized spec.min_qty
    → IsGuarded sized (admits_qty spec 0)
unfolding admits_qty
qty-IsGuarded true spec h = tt
qty-IsGuarded false spec h = λ e. ground (arith, h, e)

floored-Kept :
    (priced sized : Bool) (spec : InstrumentSpec) (n : ℕ)
    → Kept priced sized spec
    → Kept priced sized (record spec { min_notional = some n })
floored-Kept priced sized spec n (v, p, q) = (
  record {
    price_digits = v.price_digits;
    qty_digits = v.qty_digits;
    ticks = v.ticks;
    lots = v.lots;
    price_grid = v.price_grid;
    price_bound = v.price_bound;
    qty_grid = v.qty_grid;
    qty_bound = v.qty_bound;
  },
  p,
  q,
)

Configured-Kept :
    (decimal : Decimal) (priced sized : Bool) (spec : InstrumentSpec)
    → Configured decimal priced sized spec
    → Kept priced sized spec
Configured-Kept decimal priced sized spec (made ps qs t l e) =
    let (_, _, ticks, lots, same) = new_checks {D = decimal.Value} ps qs t l spec e in
    (
      new-IsValidSpec {D = decimal.Value} ps qs t l spec e,
      subst (λ (s : InstrumentSpec). 0 < s.min_price) (sym same) ticks,
      subst (λ (s : InstrumentSpec). 0 < s.min_qty) (sym same) lots,
    )
Configured-Kept decimal priced sized spec (with_prices {priced = p} {spec = s} lo hi c e) =
    let (v, _, q) = Configured-Kept decimal p sized s c in
    let (v', same) = with_price_range-IsValidSpec {D = decimal.Value} s spec lo hi v e in
    (v', tt, subst (λ (x : InstrumentSpec). IsFloor sized x.min_qty) (sym same) q)
Configured-Kept decimal priced sized spec (with_quantities {sized = q} {spec = s} lo hi c e) =
    let (v, p, _) = Configured-Kept decimal priced q s c in
    let (v', same) = with_qty_range-IsValidSpec {D = decimal.Value} s spec lo hi v e in
    (v', subst (λ (x : InstrumentSpec). IsFloor priced x.min_price) (sym same) p, tt)
Configured-Kept decimal priced sized spec (with_least {spec = s} least c e) =
    let (n, _, same, _, _) = subst (OnOk _) e (with_min_notional-IsCeiling decimal s least) in
    subst (Kept priced sized) (sym same)
      (floored-Kept priced sized s n (Configured-Kept decimal priced sized s c))

-- Every specification that `new`, `with_price_range`, `with_qty_range` and `with_min_notional` lead
-- to, in any order, is well-formed: its grids are not zero, its bounds stand on them, no upper bound
-- is below the lower one. It rejects a price of zero unless the price range has been set, and a
-- quantity of zero unless the quantity range has.
pub Configured-IsValidSpec :
    (decimal : Decimal) (priced sized : Bool) (spec : InstrumentSpec)
    → Configured decimal priced sized spec
    → IsValidSpec spec
      × IsGuarded priced (admits_price spec 0)
      × IsGuarded sized (admits_qty spec 0)
Configured-IsValidSpec decimal priced sized spec c =
    let (v, p, q) = Configured-Kept decimal priced sized spec c in
    (v, price-IsGuarded priced spec p, qty-IsGuarded sized spec q)
