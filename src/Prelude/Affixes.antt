-- ===== src/Prelude/Affixes.antt =====
-- The methods of `str` that take a text apart at a prefix, a suffix, a character or a byte index.
use Prim.Native.Nat.{ℕ, zero, suc, ◌-◌}
use mathlib.Core.Path.{◌≡◌}
use mathlib.Core.Logic.{inl, inr}
use mathlib.Core.Option.{Option, none, some}
use mathlib.Core.List.{[], ◌∷◌, ◌++◌}
use native.Mathlib.Omega.{arith}
use package.fabdev.Prelude.Tests.{ltb, ◌==◌, if◌then◌else◌, Option-cases}
use package.fabdev.Prelude.Texts.{Text, text_eq, text_eq_iff}
use package.fabdev.Prelude.Strings.{utf8_width}

abbrev pub push_before : ℕ → Option (Text × Text) → Option (Text × Text)
push_before c none = none
push_before c (some (before, after)) = some (c ∷ before, after)

-- `str::split_once` at one character
unfoldable pub split_once : ℕ → Text → Option (Text × Text)
split_once sep [] = none
split_once sep (c ∷ s) =
    let rest = split_once sep s in if c == sep then some ([], s) else push_before c rest

-- `str::strip_prefix`
unfoldable pub strip_prefix : Text → Text → Option Text
strip_prefix [] s = some s
strip_prefix (c ∷ p) [] = none
strip_prefix (c ∷ p) (d ∷ s) = let rest = strip_prefix p s in if c == d then rest else none

abbrev pub push_char : ℕ → Option Text → Option Text
push_char c none = none
push_char c (some s) = some (c ∷ s)

-- `str::strip_suffix`
unfoldable pub strip_suffix : Text → Text → Option Text
unfolding text_eq
strip_suffix p [] = if text_eq [] p then some [] else none
strip_suffix p (c ∷ s) =
    let rest = strip_suffix p s in if text_eq (c ∷ s) p then some [] else push_char c rest

-- The text before and after a byte index, if the index stands between two characters.
unfoldable pub split_bytes : ℕ → Text → Option (Text × Text)
unfolding utf8_width
split_bytes zero s = some ([], s)
split_bytes (suc n) [] = none
split_bytes (suc n) (c ∷ s) =
    let rest = split_bytes (suc n - utf8_width c) s in
    if ltb (suc n) (utf8_width c) then none else push_before c rest

pub strip_prefix-eq : (p s r : Text) → strip_prefix p s ≡ some r → s ≡ p ++ r
unfolding strip_prefix
strip_prefix-eq [] s r h = ground arith
strip_prefix-eq (c ∷ p) [] r h = cc
strip_prefix-eq (c ∷ p) (d ∷ s) r h = ground (arith, strip_prefix-eq p s r)

pub strip_suffix-eq : (p s r : Text) → strip_suffix p s ≡ some r → s ≡ r ++ p
unfolding strip_suffix
strip_suffix-eq p [] r h = ground (arith, text_eq_iff [] p)
strip_suffix-eq p (c ∷ s) [] h = elim (Option-cases (strip_suffix p s)) [
  | inl missing ↦ ground (arith, text_eq_iff (c ∷ s) p)
  | inr (t, found) ↦ ground (arith, text_eq_iff (c ∷ s) p)
]
strip_suffix-eq p (c ∷ s) (d ∷ r) h = ground (arith, strip_suffix-eq p s r)
