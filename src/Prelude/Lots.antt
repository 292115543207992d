-- ===== src/Prelude/Lots.antt =====
-- Whole numbers of lots: what keeps a quantity on the grid of a lot size.
use Prim.Native.Nat.{ℕ, zero, suc, ◌^◌, ◌+◌, ◌-◌, ◌*◌, ◌/◌, ◌≤◌, ◌<◌, ◌∣◌, min}
use mathlib.Core.Path.{◌≡◌}
use native.Mathlib.Decide.{dec_le}
use native.Mathlib.Nat.{
  dvd-sub, le_of_dvd, pow-zero, pow-suc, div-lt_iff_lt-mul, div-mul-le_self, lt-div-mul-add,
}
use native.Mathlib.Omega.{arith}

pub dvd-min : (lot : ℕ) {a b : ℕ} → lot ∣ a → lot ∣ b → lot ∣ min a b
dvd-min lot {a} {b} h k = elim (dec_le a b) [
  | yes p ↦ (let e : min a b ≡ a = omega arith in rw e h)
  | no p ↦ (let e : min a b ≡ b = omega arith in rw e k)
]

-- Two different quantities on the grid are at least a lot apart.
pub add-lot-le : (lot : ℕ) {a b : ℕ} → lot ∣ a → lot ∣ b → a < b → a + lot ≤ b
add-lot-le lot {a} {b} h k l =
    omega (arith, le_of_dvd {m = lot} {n = b - a} (omega arith) (dvd-sub lot k h))

-- A quotient is below `q` when the dividend is below `q` times the divisor.
pub div-lt : (n k q : ℕ) → 0 < k → n < q * k → n / k < q
div-lt n k q p h = (div-lt_iff_lt-mul p).1 h

-- Flooring to a lot loses less than a lot.
pub floor_lot : (n lot : ℕ) → 0 < lot → (n / lot * lot ≤ n) × (n < n / lot * lot + lot)
floor_lot n lot p = (div-mul-le_self n lot, lt-div-mul-add p)

pub mul_mono : (a b c : ℕ) → a ≤ b → a * c ≤ b * c
mul_mono a b c h = grind arith

-- The product form of a bound gives the bound.
pub le_of_mul-le : (x y t : ℕ) → 0 < t → x * t ≤ y * t → x ≤ y
le_of_mul-le x y t p h = elim (dec_le x y) [
  | yes q ↦ q
  | no q ↦ absurd (omega (arith, mul_mono (y + 1) x t (omega arith)))
]

pub pow_add : (b m n : ℕ) → b ^ (m + n) ≡ b ^ m * b ^ n
pow_add b m zero = let e : m + 0 ≡ m = omega arith in rw (e, pow-zero) (omega arith)
pow_add b m (suc n) =
    let e : m + suc n ≡ suc (m + n) = omega arith in
    rw (e, pow-suc, pow-suc, pow_add b m n) (omega arith)

pub lt_of_mul-lt : (x y t : ℕ) → x * t < y * t → x < y
lt_of_mul-lt x y t h = elim (dec_le y x) [
  | yes q ↦ absurd (omega (arith, mul_mono y x t q))
  | no q ↦ omega arith
]
