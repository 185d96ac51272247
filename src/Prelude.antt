-- ===== src/Prelude.antt =====
-- The names that every module shares: the libraries', passed on, and the children's.
mod Tests
mod Lists
pub mod Dict
pub mod Sort
pub mod Count
pub mod Codes
pub mod Integer
pub use Tests.*
pub use Lists.*
pub use Prim.Native.Nat.{ℕ, zero, suc, ◌+◌, ◌-◌, ◌*◌, ◌/◌, ◌%◌, ◌^◌, ◌≤◌, ◌<◌, max, min}
pub use mathlib.Core.Path.{◌≡◌, refl, sym, ap, ◌∙◌, subst}
pub use mathlib.Core.Logic.{◌≢◌, ◌⊎◌, inl, inr}
pub use mathlib.Core.Bool.{Bool, true, false, not, ◌&&◌, ◌||◌}
pub use mathlib.Core.Option.{Option, none, some}
unfoldable pub use mathlib.Core.List.{◌++◌}
pub use mathlib.Core.List.{List, [], ◌∷◌, map, append-nil, append_assoc}
pub use native.Mathlib.Omega.{arith}
unfoldable pub use Codes.{
  Text, codes, is_empty, same_text, strip_prefix, before, is_digit, all_chars, is_decimal,
  digits_value, decimal,
}
pub use Integer.{ℤ, pos, negsuc}
unfoldable pub use Integer.{is_space, parse_int}
