-- ===== src/Instrument/Admission.antt =====
-- A well-formed specification, the steps that build one, and what it admits.
use order_book.Prelude.{
  ℕ, ◌+◌, ◌-◌, ◌*◌, ◌/◌, ◌%◌, ◌<◌, ◌≤◌, ◌≡◌, refl, ap, Option, none, some, ok, arith, max, min, ◌↔◌,
  mul_u128_lem, u64_mod, ◌∣◌, dvd-sub, dvd_of_mod-eq-zero, dec_le, sym,
}
use native.Mathlib.Nat.{div-mul_cancel, mod_self}
use Prim.Native.String.{String}
use order_book.Instrument.{
  Price, Qty, InstrumentSpec, new, check_max, with_price_range, with_qty_range, ticks_between,
  above_max, admits_price, admits_qty, admits_notional, check_notional,
}

-- An upper bound, where there is one, is on the grid and not below the lower bound.
abbrev pub IsBound : ℕ → ℕ → Option ℕ → Type 0
IsBound grid lo none = Unit {0}
IsBound grid lo (some hi) = (hi % grid ≡ 0) × (lo ≤ hi)

pub record IsValidSpec (spec : InstrumentSpec) : Type 0 where
  pub price_digits : spec.price_scale ≤ 28
  pub qty_digits : spec.qty_scale ≤ 28
  pub ticks : 0 < spec.tick_size
  pub lots : 0 < spec.lot_size
  pub price_grid : spec.min_price % spec.tick_size ≡ 0
  pub price_bound : IsBound spec.tick_size spec.min_price spec.max_price
  pub qty_grid : spec.min_qty % spec.lot_size ≡ 0
  pub qty_bound : IsBound spec.lot_size spec.min_qty spec.max_qty

abbrev fresh : ℕ → ℕ → ℕ → ℕ → InstrumentSpec
fresh price_scale qty_scale tick_size lot_size = record {
  price_scale = price_scale;
  qty_scale = qty_scale;
  tick_size = tick_size;
  lot_size = lot_size;
  min_price = tick_size;
  max_price = none;
  min_qty = lot_size;
  max_qty = none;
  min_notional = none;
}

module _ {D : Type 0} where
  pub new_checks :
      (price_scale qty_scale tick_size lot_size : ℕ) (spec : InstrumentSpec)
      → new {D = D} price_scale qty_scale tick_size lot_size ≡ ok spec
      → (price_scale ≤ 28)
        × (qty_scale ≤ 28)
        × (0 < tick_size)
        × (0 < lot_size)
        × (spec ≡ fresh price_scale qty_scale tick_size lot_size)
  unfolding new
  new_checks ps qs t l spec e = ground arith

  -- Every specification that `new` returns is well-formed.
  pub new-IsValidSpec :
      (price_scale qty_scale tick_size lot_size : ℕ) (spec : InstrumentSpec)
      → new {D = D} price_scale qty_scale tick_size lot_size ≡ ok spec
      → IsValidSpec spec
  new-IsValidSpec ps qs t l spec e =
      let (a, b, c, d, same) = new_checks ps qs t l spec e in
      rw same (record {
        price_digits = a;
        qty_digits = b;
        ticks = c;
        lots = d;
        price_grid = mod_self t;
        price_bound = tt;
        qty_grid = mod_self l;
        qty_bound = tt;
      })

  check_max-IsBound :
      (grid lo : ℕ) (hi : Option ℕ) (off below : String) (u : Unit {0})
      → check_max {D = D} grid lo hi off below ≡ ok u
      → IsBound grid lo hi
  unfolding check_max
  check_max-IsBound grid lo none off below u e = tt
  check_max-IsBound grid lo (some hi) off below u e = ground arith

  with_price_range_checks :
      (spec spec' : InstrumentSpec) (lo : Price) (hi : Option Price)
      → with_price_range {D = D} spec lo hi ≡ ok spec'
      → (lo % spec.tick_size ≡ 0)
        × IsBound spec.tick_size lo hi
        × (spec' ≡ record spec { min_price = lo; max_price = hi })
  unfolding with_price_range
  with_price_range_checks spec spec' lo hi e =
      let check = λ (off below : String). check_max-IsBound spec.tick_size lo hi off below tt in
      ground (arith, check "max_price is not on the tick grid" "max_price below min_price")

  -- A specification stays well-formed when its price band is set.
  pub with_price_range-IsValidSpec :
      (spec spec' : InstrumentSpec) (lo : Price) (hi : Option Price)
      → IsValidSpec spec
      → with_price_range {D = D} spec lo hi ≡ ok spec'
      → IsValidSpec spec' × (spec' ≡ record spec { min_price = lo; max_price = hi })
  with_price_range-IsValidSpec spec spec' lo hi v e =
      let (grid, bound, same) = with_price_range_checks spec spec' lo hi e in
      (
        rw same (record {
          price_digits = v.price_digits;
          qty_digits = v.qty_digits;
          ticks = v.ticks;
          lots = v.lots;
          price_grid = grid;
          price_bound = bound;
          qty_grid = v.qty_grid;
          qty_bound = v.qty_bound;
        }),
        same,
      )

  with_qty_range_checks :
      (spec spec' : InstrumentSpec) (lo : Qty) (hi : Option Qty)
      → with_qty_range {D = D} spec lo hi ≡ ok spec'
      → (lo % spec.lot_size ≡ 0)
        × IsBound spec.lot_size lo hi
        × (spec' ≡ record spec { min_qty = lo; max_qty = hi })
  unfolding with_qty_range
  with_qty_range_checks spec spec' lo hi e =
      let check = λ (off below : String). check_max-IsBound spec.lot_size lo hi off below tt in
      ground (arith, check "max_qty is not on the lot grid" "max_qty below min_qty")

  -- A specification stays well-formed when its quantity range is set.
  pub with_qty_range-IsValidSpec :
      (spec spec' : InstrumentSpec) (lo : Qty) (hi : Option Qty)
      → IsValidSpec spec
      → with_qty_range {D = D} spec lo hi ≡ ok spec'
      → IsValidSpec spec' × (spec' ≡ record spec { min_qty = lo; max_qty = hi })
  with_qty_range-IsValidSpec spec spec' lo hi v e =
      let (grid, bound, same) = with_qty_range_checks spec spec' lo hi e in
      (
        rw same (record {
          price_digits = v.price_digits;
          qty_digits = v.qty_digits;
          ticks = v.ticks;
          lots = v.lots;
          price_grid = v.price_grid;
          price_bound = v.price_bound;
          qty_grid = grid;
          qty_bound = bound;
        }),
        same,
      )

-- A price and an optional bound above it.
abbrev pub IsBelow : ℕ → Option ℕ → Type 0
IsBelow x none = Unit {0}
IsBelow x (some hi) = x ≤ hi

abbrev pub IsAbove : ℕ → Option ℕ → Type 0
IsAbove x none = Unit {0}
IsAbove x (some lo) = lo ≤ x

pub admits_price_iff :
    (spec : InstrumentSpec) (price : Price)
    → (admits_price spec price ≡ ok tt) ↔ ((spec.min_price ≤ price) × IsBelow price spec.max_price)
unfolding admits_price above_max
admits_price_iff spec price = ground arith

pub admits_qty_iff :
    (spec : InstrumentSpec) (qty : Qty)
    → (admits_qty spec qty ≡ ok tt) ↔ ((spec.min_qty ≤ qty) × IsBelow qty spec.max_qty)
unfolding admits_qty above_max
admits_qty_iff spec qty = ground arith

pub admits_notional_iff :
    (spec : InstrumentSpec) (price : Price) (qty : Qty)
    → price < u64_mod
    → qty < u64_mod
    → (admits_notional spec price qty ≡ ok tt) ↔ IsAbove (price * qty) spec.min_notional
unfolding admits_notional
admits_notional_iff spec price qty h k =
    rw (mul_u128_lem price qty h k) (check_notional_iff spec.min_notional (price * qty))
  where
    check_notional_iff :
        (lo : Option ℕ) (value : ℕ) → (check_notional lo value ≡ ok tt) ↔ IsAbove value lo
    check_notional_iff none value = (λ _. tt, λ _. refl)
    check_notional_iff (some lo) value = ground arith

dvd-gap : (t : ℕ) {a b : ℕ} → t ∣ a → t ∣ b → t ∣ max a b - min a b
dvd-gap t {a} {b} h k = elim (dec_le a b) [
  | yes p ↦ (let e : max a b - min a b ≡ b - a = omega arith in rw e (dvd-sub t k h))
  | no p ↦ (let e : max a b - min a b ≡ a - b = omega arith in rw e (dvd-sub t h k))
]

-- Two prices on the tick grid are apart by exactly `ticks_between` ticks, in either order.
pub ticks_between_exact :
    (spec : InstrumentSpec) (a b : Price)
    → a % spec.tick_size ≡ 0
    → b % spec.tick_size ≡ 0
    → (min a b + ticks_between spec a b * spec.tick_size ≡ max a b)
      × (ticks_between spec a b ≡ ticks_between spec b a)
unfolding ticks_between
ticks_between_exact spec a b h k =
    let symm : max b a - min b a ≡ max a b - min a b = omega arith in
    let gap : spec.tick_size ∣ max a b - min a b =
      dvd-gap spec.tick_size (dvd_of_mod-eq-zero spec.tick_size h)
        (dvd_of_mod-eq-zero spec.tick_size k) in
    (
      omega (arith, div-mul_cancel spec.tick_size gap),
      ap (λ (x : ℕ). x / spec.tick_size) (sym symm),
    )
