-- ===== src/Prelude/Maps.antt =====
-- Maps with text keys: `BTreeMap` in key order, and `HashMap`, whose order nothing depends on.
use mathlib.Core.Path.{◌≡◌, subst}
use mathlib.Core.Logic.{inl, inr}
use mathlib.Core.Bool.{Bool, false}
use mathlib.Core.Option.{Option, none, some}
use mathlib.Core.List.{List, [], ◌∷◌}
use native.Mathlib.Omega.{arith}
use package.fabdev.Prelude.Tests.{if◌then◌else◌, Bool-cases, is_some}
use package.fabdev.Prelude.Lists.{All, Pairs}
use package.fabdev.Prelude.Texts.{Text, text_eq, text_eq_iff, text_leb}

abbrev pub Map {ℓ} : Type ℓ → Type ℓ
Map V = List (Text × V)

module _ {ℓ} {V : Type ℓ} where
  unfoldable pub map_get : Text → Map V → Option V
  map_get k [] = none
  map_get k ((j, v) ∷ m) = if text_eq j k then some v else map_get k m

  abbrev pub contains_key : Text → Map V → Bool
  contains_key k m = is_some (map_get k m)

  unfoldable pub map_remove : Text → Map V → Map V
  map_remove k [] = []
  map_remove k ((j, v) ∷ m) = if text_eq j k then map_remove k m else (j, v) ∷ map_remove k m

  unfoldable pub place : Text → V → Map V → Map V
  place k v [] = (k, v) ∷ []
  place k v ((j, w) ∷ m) = if text_leb k j then (k, v) ∷ (j, w) ∷ m else (j, w) ∷ place k v m

  -- An entry under the same key is replaced.
  unfoldable pub map_insert : Text → V → Map V → Map V
  unfolding place map_remove
  map_insert k v m = place k v (map_remove k m)

  pub map_get-remove :
      (k j : Text) (m : Map V)
      → map_get j (map_remove k m) ≡ (if text_eq k j then none else map_get j m)
  unfolding map_get map_remove
  map_get-remove k j [] = ground arith
  map_get-remove k j ((i, v) ∷ m) =
      ground (arith, map_get-remove k j m, text_eq_iff i k, text_eq_iff i j, text_eq_iff k j)

  map_get-place :
      (k j : Text) (v : V) (m : Map V)
      → map_get k m ≡ none
      → map_get j (place k v m) ≡ (if text_eq k j then some v else map_get j m)
  unfolding map_get place
  map_get-place k j v [] h = ground arith
  map_get-place k j v ((i, w) ∷ m) h =
      ground (arith, map_get-place k j v m, text_eq_iff i k, text_eq_iff i j, text_eq_iff k j)

  pub map_get-insert :
      (k j : Text) (v : V) (m : Map V)
      → map_get j (map_insert k v m) ≡ (if text_eq k j then some v else map_get j m)
  unfolding map_insert
  map_get-insert k j v m = ground (
    arith,
    map_get-place k j v (map_remove k m),
    map_get-remove k k m,
    map_get-remove k j m,
    text_eq_iff k k,
  )

  -- A relation between each entry and each later one.
  pub place-All {κ} :
      (P : Text × V → Type κ) (k : Text) (v : V) (m : Map V)
      → P (k, v)
      → All P m
      → All P (place k v m)
  unfolding place
  place-All P k v [] h a = (h, tt)
  place-All P k v ((j, w) ∷ m) h a = elim (Bool-cases (text_leb k j)) [
    | inl before ↦ rw before (h, a)
    | inr after ↦ rw after (a.0, place-All P k v m h a.1)
  ]

  pub place-Pairs {κ} :
      (R : Text × V → Text × V → Type κ) (k : Text) (v : V) (m : Map V)
      → All (R (k, v)) m
      → All (λ e. R e (k, v)) m
      → Pairs R m
      → Pairs R (place k v m)
  unfolding place
  place-Pairs R k v [] h g p = (tt, tt)
  place-Pairs R k v ((j, w) ∷ m) h g p = elim (Bool-cases (text_leb k j)) [
    | inl before ↦ rw before (h, p)
    | inr after ↦ rw after (place-All (R (j, w)) k v m g.0 p.0, place-Pairs R k v m h.1 g.1 p.1)
  ]

  pub remove-All {κ} :
      (P : Text × V → Type κ) (k : Text) (m : Map V) → All P m → All P (map_remove k m)
  unfolding map_remove
  remove-All P k [] a = tt
  remove-All P k ((j, w) ∷ m) a = ground (arith, remove-All P k m a.1)

  pub remove-keys : (k : Text) (m : Map V) → All (λ e. text_eq e.0 k ≡ false) (map_remove k m)
  unfolding map_remove
  remove-keys k [] = tt
  remove-keys k ((j, w) ∷ m) = ground (arith, remove-keys k m)

  pub remove-Pairs {κ} :
      (R : Text × V → Text × V → Type κ) (k : Text) (m : Map V)
      → Pairs R m
      → Pairs R (map_remove k m)
  unfolding map_remove
  remove-Pairs R k [] p = tt
  remove-Pairs R k ((j, w) ∷ m) p =
      ground (arith, remove-Pairs R k m p.1, remove-All (R (j, w)) k m p.0)

  pub get-All {κ} :
      (P : Text × V → Type κ) (k : Text) (m : Map V) (v : V)
      → map_get k m ≡ some v
      → All P m
      → P (k, v)
  unfolding map_get
  get-All P k [] v h a = cc
  get-All P k ((j, w) ∷ m) v h a = elim (Bool-cases (text_eq j k)) [
    | inl same ↦ let here : (j, w) ≡ (k, v) = ground (arith, text_eq_iff j k) in subst P here a.0
    | inr differ ↦ get-All P k m v (ground arith) a.1
  ]
