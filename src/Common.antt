-- ===== src/Common.antt =====
-- The names that the other modules share: the libraries', passed on, and those of the children.
mod Tests
mod Lists
mod Text
mod Assoc
mod Framed
mod Results
pub mod Int
unfoldable pub use Framed.{framed}
pub use Framed.{framed_injective}
pub use Text.{worth-itoa, all_digits-itoa, all_digits-any, cut-append}
pub use Tests.*
pub use Lists.*
pub use Results.*
unfoldable pub use Text.{
  Bytes, str_eq, itoa, worth, cut, split, all_digits, is_digits, number, max_atoi, str_leb,
}
pub use Text.{
  str_leb_refl, str_leb_total, str_leb_trans, str_eq_iff, str_eq_refl, str_eq-false, itoa_injective,
}
unfoldable pub use Assoc.{lookup, insert, erase, keep_values, only_if, zero_or, Distinct}
pub use Assoc.{
  lookup-insert, lookup-erase, lookup-keep_values, insert-Distinct, erase-Distinct,
  keep_values-Distinct,
}
pub use Prim.Native.Nat.{ℕ, zero, suc, ◌+◌, ◌-◌, ◌*◌, ◌/◌, ◌%◌, ◌^◌, ◌≤◌, ◌<◌, min, max}
pub use mathlib.Core.Path.{◌≡◌, refl, sym, ap, ◌∙◌, subst}
pub use mathlib.Core.Logic.{◌≢◌, ◌↔◌, ◌⊎◌, inl, inr}
pub use mathlib.Core.Bool.{Bool, true, false, not, ◌&&◌, ◌||◌}
pub use mathlib.Core.Option.{Option, none, some}
pub use mathlib.Core.List.{List, [], ◌∷◌, ◌++◌, map}
pub use native.Mathlib.Omega.{arith}
