-- ===== src/Prelude.antt =====
-- The names that the components share: the libraries', passed on, and those of six children.
-- `Tests` has Boolean tests, `Lists` has vectors and slices over native indices, `Every` what holds
-- of all elements of a list, `Panics` has panics and checked `usize` arithmetic, `Maps` has the maps
-- of the demo's servers, `Keys` names.
mod Tests
mod Lists
mod Every
mod Panics
mod Maps
mod Keys
pub use Tests.*
pub use Lists.*
pub use Every.*
pub use Panics.*
pub use Maps.*
pub use Keys.*
pub use Prim.Native.Nat.{ℕ, zero, suc, ◌+◌, ◌-◌, ◌*◌, ◌/◌, ◌%◌, ◌^◌, ◌≤◌, ◌<◌}
pub use mathlib.Core.Path.{◌≡◌, refl, sym, ap, ◌∙◌, subst}
pub use mathlib.Core.Logic.{◌≢◌, ◌↔◌, ◌⊎◌, inl, inr}
pub use mathlib.Core.Bool.{Bool, true, false, not, ◌&&◌, ◌||◌}
pub use mathlib.Core.Option.{Option, none, some}
pub use mathlib.Core.List.{List, [], ◌∷◌, ◌++◌, map}
pub use native.Mathlib.Omega.{arith}
unfoldable pub use native.Mathlib.Decide.{dec_lt, ℕ_discrete}
