-- ===== src/Base.antt =====
-- The names that every component shares: the library's, passed on, and those of the children.
mod Equality
mod Lists
mod Counting
mod Errors
mod Text
mod Decimal
mod Words
pub mod Dict
unfoldable pub use Equality.*
unfoldable pub use Lists.*
pub use Counting.*
pub use Errors.*
unfoldable pub use Decimal.*
unfoldable pub use Words.*
unfoldable pub use Text.*
pub use native.Mathlib.Decide.{dec_le, dec_lt}
pub use Prim.Native.Nat.{max, ℕ, zero, suc, ◌+◌, ◌-◌, ◌*◌, ◌/◌, ◌%◌, ◌^◌, ◌≤◌, ◌<◌}
pub use Prim.Native.String.{String, ◌++◌ as ◌<>◌}
pub use mathlib.Core.Path.{◌≡◌, refl, sym, ap, ◌∙◌}
pub use mathlib.Core.Logic.{◌≢◌, ◌↔◌, ◌⊎◌, inl, inr}
pub use mathlib.Core.Bool.{Bool, true, false, not, ◌&&◌, ◌||◌}
pub use mathlib.Core.Option.{Option, none, some}
pub use mathlib.Core.List.{List, [], ◌∷◌, ◌++◌, map}
pub use native.Mathlib.Omega.{arith}
