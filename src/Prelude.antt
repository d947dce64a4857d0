-- ===== src/Prelude.antt =====
-- The names that the other modules share: the libraries', passed on, and those of the children.
mod Tests
mod Equality
mod Lists
mod Sorting
mod Dicts
mod Values
mod Texts
mod TextOrder
mod Outcomes
pub use Tests.*
pub use Equality.*
pub use Lists.*
pub use Sorting.*
pub use Dicts.*
pub use Values.*
unfoldable pub use Values.{strip}
pub use Texts.*
pub use TextOrder.*
unfoldable pub use Texts.{decimal}
pub use Prim.Native.String.{◌++◌ as ◌+++◌}
pub use Outcomes.*
pub use Prim.Native.Nat.{ℕ, zero, suc, ◌+◌, ◌-◌, ◌*◌, ◌/◌, ◌%◌, ◌≤◌, ◌<◌}
pub use Prim.Native.String.{String}
pub use mathlib.Core.Path.{◌≡◌, refl, sym, ap, ◌∙◌, subst}
pub use mathlib.Core.Logic.{◌≢◌, ◌↔◌, ◌⊎◌, inl, inr}
pub use mathlib.Core.Bool.{Bool, true, false, ◌&&◌, ◌||◌, not}
pub use mathlib.Core.Option.{Option, none, some}
pub use mathlib.Core.List.{List, [], ◌∷◌, ◌++◌, map}
pub use native.Mathlib.Omega.{arith}
