-- ===== src/Prelude.antt =====
-- The names that all modules share: those of the libraries, passed on, and those of the children:
-- Boolean tests, C arrays as lists, the `int32_t` results, and the bits of a machine word.
mod Tests
mod Lists
mod Int
mod Options
mod Finite
mod Values
pub mod Bits
pub use Tests.*
pub use Lists.*
pub use Options.*
pub use Finite.*
pub use Values.*
pub use Int.*
pub use Prim.Native.Nat.{ℕ, zero, suc, ◌+◌, ◌-◌, ◌*◌, ◌/◌, ◌%◌, ◌^◌, ◌≤◌, ◌<◌, min, max}
pub use Prim.Native.Nat.{bit_and, bit_or}
pub use mathlib.Core.Path.{◌≡◌, refl, sym, ap, ap₂, ◌∙◌, subst}
pub use mathlib.Core.Logic.{◌≢◌, ◌↔◌, ◌⊎◌, inl, inr}
pub use mathlib.Core.Bool.{Bool, true, false, not, ◌&&◌, ◌||◌}
pub use mathlib.Core.Option.{Option, none, some}
pub use mathlib.Core.List.{List, [], ◌∷◌, ◌++◌, append-nil, append_assoc}
pub use native.Mathlib.Omega.{arith}
