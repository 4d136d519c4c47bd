-- ===== src/Prelude.antt =====
-- The names that the other modules share: the libraries' names passed on, and those of the
-- children (tests on numbers, lists over the native numbers, texts as bytes, predicates).
mod Tests
mod Lists
mod Text
pub mod Predicates
pub mod Table
pub mod Integers
pub use Tests.*
pub use Lists.*
pub use Text.*
pub use Prim.Native.Nat.{ℕ, zero, suc, ◌+◌, ◌-◌, ◌*◌, ◌/◌, ◌%◌, ◌^◌, ◌≤◌, ◌<◌, min, max}
pub use mathlib.Core.Path.{◌≡◌, refl, sym, ap, ap₂, subst, ◌∙◌}
pub use mathlib.Core.Logic.{◌≢◌, ◌↔◌, ◌⊎◌, inl, inr}
pub use mathlib.Core.Bool.{Bool, true, false, not, ◌&&◌, ◌||◌}
pub use mathlib.Core.Option.{Option, none, some}
pub use mathlib.Core.List.{List, [], ◌∷◌, ◌++◌, map, append-nil, append_assoc, map-append}
pub use native.Mathlib.Omega.{arith}
pub use native.Mathlib.Nat.{add_assoc, add_comm, zero-add, add-zero}
