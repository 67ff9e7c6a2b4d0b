-- ===== src/Common.antt =====
-- What the modules share: library names passed on, and the names of the children.
mod Tests
mod Lists
mod Keys
mod Decimal
pub use Tests.*
pub use Lists.*
pub use Decimal.{Text, codes, is_digit, to_number-decimal, strip_prefix-append}
unfoldable pub use Decimal.{strip_prefix, decimal, to_number}
pub use Keys.*
pub use Prim.Native.Nat.{ℕ, zero, suc, ◌+◌, ◌-◌, ◌*◌, ◌/◌, ◌%◌, ◌^◌, ◌≤◌, ◌<◌, max, min}
pub use Prim.Native.String.{String}
pub use mathlib.Core.Path.{◌≡◌, refl, sym, ap, ◌∙◌}
pub use mathlib.Core.Logic.{◌≢◌, ◌↔◌, ◌⊎◌, inl, inr}
pub use mathlib.Core.Bool.{Bool, true, false, not, ◌&&◌, ◌||◌}
pub use mathlib.Core.Option.{Option, none, some}
pub use mathlib.Core.List.{List, [], ◌∷◌, ◌++◌, map}
pub use native.Mathlib.Omega.{arith}
