-- ===== src/Prelude/Words.antt =====
-- Rust's unsigned integers: the wrap-around of u64 and u128 arithmetic, written out.
use Prim.Native.Nat.{ℕ, ◌+◌, ◌-◌, ◌*◌, ◌%◌, ◌^◌, ◌≤◌, ◌<◌}
use mathlib.Core.Path.{◌≡◌}
use native.Mathlib.Omega.{arith}

abbrev pub u32_mod : ℕ
u32_mod = 2 ^ 32

abbrev pub u64_mod : ℕ
u64_mod = 2 ^ 64

abbrev pub u128_mod : ℕ
u128_mod = 2 ^ 128

unfoldable pub add_u64 : ℕ → ℕ → ℕ
add_u64 a b = (a + b) % u64_mod

unfoldable pub sub_u64 : ℕ → ℕ → ℕ
sub_u64 a b = (a + u64_mod - b) % u64_mod

unfoldable pub mul_u64 : ℕ → ℕ → ℕ
mul_u64 a b = (a * b) % u64_mod

unfoldable pub add_u128 : ℕ → ℕ → ℕ
add_u128 a b = (a + b) % u128_mod

unfoldable pub sub_u128 : ℕ → ℕ → ℕ
sub_u128 a b = (a + u128_mod - b) % u128_mod

unfoldable pub mul_u128 : ℕ → ℕ → ℕ
mul_u128 a b = (a * b) % u128_mod

-- `x as u64` of a wider integer.
unfoldable pub as_u64 : ℕ → ℕ
as_u64 x = x % u64_mod

pub add_u64_lem : (a b : ℕ) → a + b < u64_mod → add_u64 a b ≡ a + b
unfolding add_u64
add_u64_lem a b h = omega arith

pub sub_u64_lem : (a b : ℕ) → b ≤ a → a < u64_mod → sub_u64 a b ≡ a - b
unfolding sub_u64
sub_u64_lem a b h k = omega arith

pub add_u128_lem : (a b : ℕ) → a + b < u128_mod → add_u128 a b ≡ a + b
unfolding add_u128
add_u128_lem a b h = omega arith

pub sub_u128_lem : (a b : ℕ) → b ≤ a → a < u128_mod → sub_u128 a b ≡ a - b
unfolding sub_u128
sub_u128_lem a b h k = omega arith

pub as_u64_lem : (a : ℕ) → a < u64_mod → as_u64 a ≡ a
unfolding as_u64
as_u64_lem a h = omega arith

times_lt : (a b m n : ℕ) → a < m → b < n → a * b < m * n
times_lt a b m n h k = grind arith

-- The product of two u64 fits u128.
pub mul_u128_lem : (a b : ℕ) → a < u64_mod → b < u64_mod → mul_u128 a b ≡ a * b
unfolding mul_u128
mul_u128_lem a b h k = omega (arith, times_lt a b u64_mod u64_mod h k)
