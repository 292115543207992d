-- ===== src/Allocation/TimeProRata/Weights.antt =====
-- The weights fit u64 and none is zero.
use order_book.Prelude.{
  ℕ, zero, suc, ◌+◌, ◌-◌, ◌*◌, ◌/◌, ◌^◌, ◌≤◌, ◌<◌, max, ◌≡◌, List, [], ◌∷◌, arith, map, u64_mod,
  u128_mod, mul_u128, All, length, length-map, dec_lt, div-lt, lt→ltb, le→ltb, ne→==, eq→==,
}
use native.Mathlib.Nat.{two-pow-succ, pow-le-pow_right, one-le-pow}
use order_book.Allocation.{Maker}
use order_book.Allocation.TimeProRata.{
  TimeProRataMatcher, raw, max_raw, ilog2, scale_shift, weights,
}

lt-pow-ilog2 : (fuel x : ℕ) → x < 2 ^ fuel → x < 2 ^ suc (ilog2 fuel x)
unfolding ilog2
lt-pow-ilog2 zero x h = omega (arith, h)
lt-pow-ilog2 (suc fuel) x h = elim (dec_lt x 2) [
  | yes small ↦ rw (lt→ltb x 2 small) (omega (arith, small))
  | no large ↦ rw (le→ltb x 2 (omega arith)) (
      omega (
        arith,
        lt-pow-ilog2 fuel (x / 2) (omega (arith, two-pow-succ fuel, h)),
        two-pow-succ (suc (ilog2 fuel (x / 2))),
      ))
]

-- From `2 ^ 63` on, the shift brings a number down to 64 bits.
pow-shift-le : (l k : ℕ) → suc l ≤ k + 64 → 2 ^ suc l ≤ u64_mod * 2 ^ k
pow-shift-le l zero h = pow-le-pow_right (omega arith) h
pow-shift-le zero (suc k) h = omega (arith, two-pow-succ k, pow-shift-le zero k (omega arith))
pow-shift-le (suc l) (suc k) h =
    omega (arith, two-pow-succ k, two-pow-succ (suc l), pow-shift-le l k (omega arith))

scale_shift-lt : (x : ℕ) → x < u128_mod → x < u64_mod * 2 ^ scale_shift x
unfolding scale_shift
scale_shift-lt x h = elim (dec_lt 0 x) [
  | no p ↦ rw (eq→== x 0 (omega arith)) (omega arith)
  | yes p ↦ rw (ne→== x 0 (omega arith)) (
      omega
        (arith, lt-pow-ilog2 128 x h, pow-shift-le (ilog2 128 x) (ilog2 128 x - 63) (omega arith)))
]

scaled-lt : (x y : ℕ) → x ≤ y → y < u128_mod → x / 2 ^ scale_shift y < u64_mod
scaled-lt x y h k =
    div-lt x (2 ^ scale_shift y) u64_mod (one-le-pow (scale_shift y) 2 (omega arith))
      (omega (arith, scale_shift-lt y k))

raw-lt : (t : TimeProRataMatcher) (now : ℕ) (m : Maker) → raw t now m < u128_mod
unfolding raw mul_u128
raw-lt t now m = omega arith

max_raw-lt : (t : TimeProRataMatcher) (now : ℕ) (ms : List Maker) → max_raw t now ms < u128_mod
unfolding max_raw
max_raw-lt t now [] = omega arith
max_raw-lt t now (m ∷ ms) = omega (arith, raw-lt t now m, max_raw-lt t now ms)

abbrev pub IsWeight : ℕ → Type 0
IsWeight w = (0 < w) × (w < u64_mod)

scaled-AreWeights :
    (t : TimeProRataMatcher) (now top : ℕ) (ms : List Maker)
    → top < u128_mod
    → max_raw t now ms ≤ top
    → All IsWeight (map (λ m. max (raw t now m / 2 ^ scale_shift top) 1) ms)
unfolding max_raw
scaled-AreWeights t now top [] k h = tt
scaled-AreWeights t now top (m ∷ ms) k h =
    let fits = scaled-lt (raw t now m) top (omega arith) k in
    ((omega arith, omega (arith, fits)), scaled-AreWeights t now top ms k (omega arith))

pub weights-AreWeights :
    (t : TimeProRataMatcher) (ms : List Maker) (now : ℕ) → All IsWeight (weights t ms now)
unfolding weights
weights-AreWeights t ms now =
    scaled-AreWeights t now (max_raw t now ms) ms (max_raw-lt t now ms) (omega arith)

pub length-weights :
    (t : TimeProRataMatcher) (ms : List Maker) (now : ℕ) → length (weights t ms now) ≡ length ms
unfolding weights
length-weights t ms now = length-map _ ms
