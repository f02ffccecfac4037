-- ===== src/Base.antt =====
-- The names that every part shares: the libraries', passed on, and those of the children below:
-- Boolean tests, C arrays as lists, the results of a call, and checks over a finite range.
mod Tests
mod Arrays
mod Outcome
mod Finite
pub use Tests.*
pub use Arrays.*
pub use Outcome.*
unfoldable pub use Finite.{holds_below}
pub use Finite.{holds_below-at}
pub use Prim.Native.Nat.{ℕ, zero, suc, ◌+◌, ◌-◌, ◌*◌, ◌/◌, ◌%◌, ◌^◌, ◌≤◌, ◌<◌, min}
pub use mathlib.Core.Path.{◌≡◌, refl, sym, ap, ap₂, ◌∙◌}
pub use mathlib.Core.Logic.{◌≢◌, ◌↔◌, ◌⊎◌, inl, inr}
pub use mathlib.Core.Bool.{Bool, true, false, not, ◌&&◌, ◌||◌}
pub use mathlib.Core.Option.{Option, none, some}
pub use mathlib.Core.List.{List, [], ◌∷◌, ◌++◌, map}
pub use native.Mathlib.Omega.{arith}
