-- ===== src/Prelude.antt =====
-- What every module shares: library names passed on, tests on numbers, lists, texts and results.
mod Tests
mod Lists
mod Ints
mod Results
mod Texts
mod Sorting
mod Maps
mod Strings
mod Affixes
mod Versions
pub use Tests.*
pub use Lists.*
pub use Ints.*
pub use Results.*
pub use Versions.*
unfoldable pub use Strings.*
unfoldable pub use Affixes.*
unfoldable pub use Sorting.*
unfoldable pub use Maps.*
unfoldable pub use Texts.*
pub use Prim.Native.Nat.{ℕ, zero, suc, ◌+◌, ◌-◌, ◌*◌, ◌/◌, ◌%◌, ◌^◌, ◌≤◌, ◌<◌, min}
pub use Prim.Native.String.{String}
pub use mathlib.Core.Path.{◌≡◌, refl, sym, ap, ◌∙◌, subst}
pub use mathlib.Core.Logic.{◌≢◌, ◌↔◌, ◌⊎◌, inl, inr}
pub use mathlib.Core.Bool.{Bool, true, false, not, ◌&&◌, ◌||◌}
pub use mathlib.Core.Option.{Option, none, some}
pub use mathlib.Core.List.{List, [], ◌∷◌, ◌++◌, map}
pub use native.Mathlib.Omega.{arith}
