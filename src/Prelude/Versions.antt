-- ===== src/Prelude/Versions.antt =====
-- The `semver` crate as a parameter.
use Prim.Native.Nat.{ℕ}
use mathlib.Core.Bool.{Bool}
use mathlib.Core.Option.{Option}
use package.fabdev.Prelude.Texts.{Text}

-- A version of the `semver` crate, its parser and its order.
pub record Semver : Type 1 where
  pub Version : Type 0
  pub major : Version → ℕ
  pub parse : Text → Option Version
  pub pre_is_empty : Version → Bool
  pub build_is_empty : Version → Bool
  pub newer : Version → Version → Bool
