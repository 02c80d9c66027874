-- ===== src/Base.antt =====
-- Names shared by every module: the libraries' names, Boolean tests and lists over the native
-- numbers, signed integers, and the results of fallible code.
mod Tests
mod Lists
mod Fallible
mod Counted
mod Search
pub mod Int
pub mod Bits
pub mod Finite
pub use Tests.*
pub use Lists.*
unfoldable pub use Counted.*
unfoldable pub use Search.*
pub use Fallible.*
pub use Prim.Native.Nat.{ℕ, zero, suc, ◌+◌, ◌-◌, ◌*◌, ◌/◌, ◌%◌, ◌^◌, ◌≤◌, ◌<◌, min, max}
pub use mathlib.Core.Path.{◌≡◌, refl, sym, ap, subst, ap₂, ◌∙◌}
pub use mathlib.Core.Logic.{◌≢◌, ◌↔◌, ◌⊎◌, inl, inr}
pub use mathlib.Core.Bool.{Bool, true, false, not, ◌&&◌, ◌||◌}
pub use mathlib.Core.Option.{Option, none, some}
pub use mathlib.Core.List.{List, [], ◌∷◌, ◌++◌, map, append-nil, append_assoc}
pub use native.Mathlib.Omega.{arith}
