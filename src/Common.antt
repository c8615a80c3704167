-- ===== src/Common.antt =====
-- The names that the other modules share: the libraries', and those of the children.
mod Tests
mod Rows
mod Lookups
mod Postgres
mod Texts
pub mod Robust
pub mod Growth
pub mod Hoare
pub use Tests.*
pub use Rows.*
pub use Lookups.*
pub use Postgres.*
unfoldable pub use Texts.*
pub use Prim.Native.Nat.{ℕ, zero, suc, ◌+◌, ◌-◌, ◌*◌, ◌/◌, ◌^◌, ◌≤◌, ◌<◌, min}
pub use mathlib.Core.Path.{◌≡◌, refl, sym, ap, ◌∙◌}
pub use mathlib.Core.Logic.{◌≢◌, ◌↔◌, ◌⊎◌, inl, inr}
pub use mathlib.Core.Bool.{Bool, true, false, not, ◌&&◌, ◌||◌}
pub use mathlib.Core.Option.{Option, none, some}
pub use mathlib.Core.List.{List, [], ◌∷◌, ◌++◌, map}
pub use native.Mathlib.Omega.{arith}
