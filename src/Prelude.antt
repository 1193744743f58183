-- ===== src/Prelude.antt =====
-- The names that the other modules share: the libraries', passed on, and those of the children.
mod Tests
mod Lists
mod Eq
mod Lookup
mod Int
mod Fallible
pub mod GoMap
pub mod Sorting
pub mod Decimal
pub mod Text
pub use Tests.*
unfoldable pub use Lists.*
pub use Eq.{Equality, ◌==◌, nat_eq, string_eq, beq_refl, beq_of_ne, String-set}
pub use Int.*
pub use Fallible.*
unfoldable pub use Lookup.{lookup, without}
pub use Prim.Native.Nat.{ℕ, zero, suc, ◌+◌, ◌-◌, ◌*◌, ◌/◌, ◌%◌, ◌^◌, ◌≤◌, ◌<◌}
pub use Prim.Native.String.{String}
pub use mathlib.Core.Path.{◌≡◌, refl, sym, ap, subst, ◌∙◌}
pub use mathlib.Core.Logic.{◌≢◌, ◌↔◌, ◌⊎◌, inl, inr}
pub use mathlib.Core.Bool.{Bool, true, false, not, ◌&&◌, ◌||◌}
pub use mathlib.Core.Option.{Option, none, some}
pub use mathlib.Core.List.{List, [], ◌∷◌, ◌++◌, map}
pub use native.Mathlib.Omega.{arith}
