-- ===== src/Prelude.antt =====
-- The names that the other modules share: the libraries', passed on, and those of the children.
mod Tests
mod Lists
mod Words
mod Lots
mod Results
mod Classes
mod Ordered
pub use Tests.*
pub use Lists.*
pub use Words.{
  u32_mod, u64_mod, u128_mod, add_u64_lem, sub_u64_lem, add_u128_lem, sub_u128_lem, as_u64_lem,
  mul_u128_lem,
}
unfoldable pub use Words.{add_u64, sub_u64, mul_u64, add_u128, sub_u128, mul_u128, as_u64}
pub use Lots.*
pub use Results.*
pub use Classes.{
  Eq, nat_eq, Text, text_eq, text_beq_iff, nat_beq_iff, map_get-map_insert, map_get-map_remove,
}
unfoldable pub use Ordered.{tree_insert, tree_first, tree_last}
unfoldable pub use Classes.{text_beq, map_get, map_insert, map_remove}
pub use Prim.Native.Nat.{ℕ, zero, suc, ◌+◌, ◌-◌, ◌*◌, ◌/◌, ◌%◌, ◌^◌, ◌≤◌, ◌<◌, ◌∣◌, min, max}
pub use mathlib.Core.Path.{◌≡◌, refl, sym, ap, ◌∙◌, subst}
pub use mathlib.Core.Logic.{◌≢◌, ◌↔◌, ◌⊎◌, inl, inr}
pub use mathlib.Core.Bool.{Bool, true, false, not, ◌&&◌, ◌||◌}
pub use mathlib.Core.Option.{Option, none, some}
pub use mathlib.Core.List.{List, [], ◌∷◌, ◌++◌, map}
pub use native.Mathlib.Omega.{arith}
pub use native.Mathlib.Nat.{
  mod-eq-zero_of_dvd, dvd_of_mod-eq-zero, dvd-sub, dvd-add, dvd-mul_left, dvd-zero, le_of_dvd,
  dvd_refl,
}
unfoldable pub use native.Mathlib.Decide.{dec_lt, dec_le, ℕ_discrete}
