-- ===== src/Common.antt =====
-- The names that the modules share: the libraries', passed on, and those of the children:
-- Boolean tests, lists over the native numbers, byte memories, and the C return code.
mod Tests
mod Lists
mod Bytes
mod Membership
mod Codes
pub mod Sublists
pub use Tests.*
pub use Lists.*
pub use Membership.*
pub use Codes.*
unfoldable pub use Bytes.*
pub use Prim.Native.Nat.{ℕ, zero, suc, ◌+◌, ◌-◌, ◌*◌, ◌/◌, ◌%◌, ◌^◌, ◌≤◌, ◌<◌, min}
pub use mathlib.Core.Path.{◌≡◌, refl, sym, ap, ap₂, ◌∙◌, subst}
pub use mathlib.Core.Logic.{◌≢◌, ◌↔◌, ◌⊎◌, inl, inr}
pub use mathlib.Core.Bool.{Bool, true, false, not, ◌&&◌, ◌||◌}
pub use mathlib.Core.Option.{Option, none, some}
pub use mathlib.Core.List.{List, [], ◌∷◌, ◌++◌, map, append-nil, append_assoc}
pub use native.Mathlib.Omega.{arith}
