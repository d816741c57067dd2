-- ===== src/Common.antt =====
-- The names that every component shares: the libraries', passed on, and those of the children
-- (Boolean tests, lists and texts over the native numbers, decimal print, results).
mod Tests
mod Lists
mod Texts
mod Dicts
mod Decimal
mod Rounding
mod Results
mod Floats
mod Sequence
mod Connection
mod Steps
unfoldable pub use Tests.*
unfoldable pub use Lists.*
unfoldable pub use Texts.*
unfoldable pub use Dicts.*
unfoldable pub use Decimal.*
unfoldable pub use Rounding.*
unfoldable pub use Results.*
unfoldable pub use Floats.*
unfoldable pub use Sequence.*
unfoldable pub use Connection.*
unfoldable pub use Steps.*
pub use Prim.Native.Nat.{ℕ, zero, suc, ◌+◌, ◌-◌, ◌*◌, ◌/◌, ◌%◌, ◌^◌, ◌≤◌, ◌<◌}
pub use Prim.Native.String.{String}
pub use mathlib.Core.Path.{◌≡◌, refl, sym, ap, ap₂, ◌∙◌, fun_ext}
pub use mathlib.Core.Logic.{◌≢◌, ◌↔◌, ◌⊎◌, inl, inr}
pub use mathlib.Core.Bool.{Bool, true, false, not, ◌&&◌, ◌||◌}
pub use mathlib.Core.Option.{Option, none, some}
pub use mathlib.Core.List.{List, [], ◌∷◌, ◌++◌, append-nil, append_assoc}
pub use native.Mathlib.Omega.{arith}
