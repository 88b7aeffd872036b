-- ===== src/Prelude.antt =====
-- The names that the components share: the libraries', passed on, and those of the children
-- (Boolean tests, lists over native numbers, text as code points, signed numbers, and programs
-- that call the services around them).
mod Tests
mod Lists
mod Strings
pub mod Decimal
pub mod Dict
pub mod Sorted
pub mod Int
pub mod Prog
pub mod Only
mod Hex
mod Utf8
pub use Tests.*
pub use Lists.*
unfoldable pub use Strings.*
unfoldable pub use Decimal.*
unfoldable pub use Hex.*
unfoldable pub use Utf8.{from_utf8}
pub use Prim.Native.Nat.{ℕ, zero, suc, ◌+◌, ◌-◌, ◌*◌, ◌/◌, ◌%◌, ◌^◌, ◌≤◌, ◌<◌, min}
pub use Prim.Native.String.{String}
pub use mathlib.Core.Path.{◌≡◌, refl, sym, ap, ◌∙◌, subst}
pub use mathlib.Core.Logic.{◌≢◌, ◌↔◌, ◌⊎◌, inl, inr}
pub use mathlib.Core.Bool.{Bool, true, false, not, ◌&&◌, ◌||◌}
pub use mathlib.Core.Option.{Option, none, some}
pub use mathlib.Core.List.{List, [], ◌∷◌, ◌++◌, map}
pub use native.Mathlib.Omega.{arith}
