-- ===== src/Prelude.antt =====
-- The names that every part of the development shares: the libraries' names, passed on, the
-- Boolean tests, signed integers, results with errors, and the tables that stand for collections.
pub mod Tests
pub mod Int
pub mod Result
pub mod Table
pub mod Aggregate
pub mod Order
pub mod Each
pub mod Dict
pub mod Doubles
pub mod Counting
pub use Prim.Native.Nat.{ℕ, zero, suc, ◌+◌, ◌-◌, ◌*◌, ◌/◌, ◌%◌, ◌^◌, ◌≤◌, ◌<◌, min, max}
pub use mathlib.Core.Path.{◌≡◌, refl, sym, ap, ◌∙◌, subst}
pub use mathlib.Core.Logic.{◌≢◌, ◌↔◌, ◌⊎◌, inl, inr}
pub use mathlib.Core.Bool.{Bool, true, false, not, ◌&&◌, ◌||◌}
pub use mathlib.Core.Option.{Option, none, some}
pub use mathlib.Core.List.{List, [], ◌∷◌, ◌++◌, map}
pub use native.Mathlib.Omega.{arith}
pub use Tests.*
