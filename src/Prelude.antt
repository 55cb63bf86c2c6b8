-- ===== src/Prelude.antt =====
-- The names that the other modules share: the libraries' names, passed on, and those of the children
-- below (tests on numbers, lists, association maps, signed integers, texts as bytes).
mod Tests
mod Lists
mod Equality
mod Panic
pub mod Chunks
pub mod Dict
pub mod Int
pub mod Sorted
pub use Tests.*
pub use Lists.*
pub use Equality.*
pub use Panic.*
pub use Prim.Native.Nat.{ℕ, zero, suc, ◌+◌, ◌-◌, ◌*◌, ◌/◌, ◌%◌, ◌^◌, ◌≤◌, ◌<◌}
pub use mathlib.Core.Path.{◌≡◌, refl, sym, ap, ◌∙◌}
pub use mathlib.Core.Logic.{◌≢◌, ◌↔◌, ◌⊎◌, inl, inr}
pub use mathlib.Core.Bool.{Bool, true, false, not, ◌&&◌, ◌||◌}
pub use mathlib.Core.Option.{Option, none, some}
pub use mathlib.Core.List.{List, [], ◌∷◌, ◌++◌, map}
pub use native.Mathlib.Omega.{arith}
