-- ===== src/Prelude/Sorting.antt =====
-- `sort_by` (stable) and `dedup_by` of slices, and what sorting keeps.
use mathlib.Core.Path.{◌≡◌, refl}
use mathlib.Core.Logic.{inl, inr}
use mathlib.Core.Bool.{Bool, true, false, ◌||◌}
use mathlib.Core.List.{List, [], ◌∷◌}
use native.Mathlib.Omega.{arith}
use package.fabdev.Prelude.Tests.{if◌then◌else◌, Bool-cases}
use package.fabdev.Prelude.Lists.{All, All-imp, Pairs, any, retain, retain-All}

module _ {ℓ} {A : Type ℓ} where
  unfoldable pub insert_by : (A → A → Bool) → A → List A → List A
  insert_by le x [] = x ∷ []
  insert_by le x (y ∷ ys) = if le x y then x ∷ y ∷ ys else y ∷ insert_by le x ys

  unfoldable pub sort_by : (A → A → Bool) → List A → List A
  unfolding insert_by
  sort_by le [] = []
  sort_by le (x ∷ xs) = insert_by le x (sort_by le xs)

  abbrev pub dedup_next : (A → A → Bool) → A → List A → List A
  dedup_next same x [] = x ∷ []
  dedup_next same x (y ∷ ys) = if same x y then x ∷ ys else x ∷ y ∷ ys

  -- `dedup`: of equal neighbours the first stays.
  unfoldable pub dedup_by : (A → A → Bool) → List A → List A
  dedup_by same [] = []
  dedup_by same (x ∷ xs) = dedup_next same x (dedup_by same xs)

  insert_by-All {κ} :
      (P : A → Type κ) (le : A → A → Bool) (x : A) (xs : List A)
      → P x
      → All P xs
      → All P (insert_by le x xs)
  unfolding insert_by
  insert_by-All P le x [] h k = (h, tt)
  insert_by-All P le x (y ∷ ys) h k = elim (Bool-cases (le x y)) [
    | inl first ↦ rw first (h, k)
    | inr later ↦ rw later (k.0, insert_by-All P le x ys h k.1)
  ]

  pub sort_by-All {κ} :
      (P : A → Type κ) (le : A → A → Bool) (xs : List A) → All P xs → All P (sort_by le xs)
  unfolding sort_by
  sort_by-All P le [] h = tt
  sort_by-All P le (x ∷ xs) h = insert_by-All P le x (sort_by le xs) h.0 (sort_by-All P le xs h.1)

  any-insert_by :
      (p : A → Bool) (le : A → A → Bool) (x : A) (xs : List A)
      → any p (insert_by le x xs) ≡ (p x || any p xs)
  unfolding insert_by
  any-insert_by p le x [] = refl
  any-insert_by p le x (y ∷ ys) = ground (arith, any-insert_by p le x ys)

  -- Sorting loses no element and makes none up.
  pub any-sort_by :
      (p : A → Bool) (le : A → A → Bool) (xs : List A) → any p (sort_by le xs) ≡ any p xs
  unfolding sort_by
  any-sort_by p le [] = refl
  any-sort_by p le (x ∷ xs) =
      ground (arith, any-insert_by p le x (sort_by le xs), any-sort_by p le xs)

  -- Each element is at most its successor.
  abbrev pub Below : (A → A → Bool) → A → List A → Type 0
  Below le x [] = Unit
  Below le x (y ∷ ys) = le x y ≡ true

  abbrev pub IsSorted : (A → A → Bool) → List A → Type 0
  IsSorted le [] = Unit
  IsSorted le (x ∷ xs) = Below le x xs × IsSorted le xs

  insert_by-Below :
      (le : A → A → Bool) (y x : A) (xs : List A)
      → le y x ≡ true
      → Below le y xs
      → Below le y (insert_by le x xs)
  unfolding insert_by
  insert_by-Below le y x [] h k = h
  insert_by-Below le y x (z ∷ zs) h k = ground arith

  insert_by-IsSorted :
      (le : A → A → Bool) (x : A) (xs : List A)
      → ((a b : A) → le a b ≡ false → le b a ≡ true)
      → IsSorted le xs
      → IsSorted le (insert_by le x xs)
  unfolding insert_by
  insert_by-IsSorted le x [] total h = (tt, tt)
  insert_by-IsSorted le x (y ∷ ys) total h = elim (Bool-cases (le x y)) [
    | inl first ↦ rw first (first, h)
    | inr later ↦
        rw later
          (insert_by-Below le y x ys (total x y later) h.0, insert_by-IsSorted le x ys total h.1)
  ]

  pub sort_by-IsSorted :
      (le : A → A → Bool)
      → ((a b : A) → le a b ≡ false → le b a ≡ true)
      → (xs : List A) → IsSorted le (sort_by le xs)
  unfolding sort_by
  sort_by-IsSorted le total [] = tt
  sort_by-IsSorted le total (x ∷ xs) =
      insert_by-IsSorted le x (sort_by le xs) total (sort_by-IsSorted le total xs)

  insert_by-Pairs {κ} :
      (R : A → A → Type κ) (le : A → A → Bool) (x : A) (xs : List A)
      → ((a b : A) → R a b → R b a)
      → All (R x) xs
      → Pairs R xs
      → Pairs R (insert_by le x xs)
  unfolding insert_by
  insert_by-Pairs R le x [] back h p = (tt, tt)
  insert_by-Pairs R le x (y ∷ ys) back h p = elim (Bool-cases (le x y)) [
    | inl first ↦ rw first (h, p)
    | inr later ↦
        rw later
          (insert_by-All (R y) le x ys (back x y h.0) p.0, insert_by-Pairs R le x ys back h.1 p.1)
  ]

  -- A symmetric relation between all elements is kept.
  pub sort_by-Pairs {κ} :
      (R : A → A → Type κ) (le : A → A → Bool) (xs : List A)
      → ((a b : A) → R a b → R b a)
      → Pairs R xs
      → Pairs R (sort_by le xs)
  unfolding sort_by
  sort_by-Pairs R le [] back p = tt
  sort_by-Pairs R le (x ∷ xs) back p =
      insert_by-Pairs R le x (sort_by le xs) back (sort_by-All (R x) le xs p.0)
        (sort_by-Pairs R le xs back p.1)

  pub sorted-All :
      (le : A → A → Bool)
      → ((a b c : A) → le a b ≡ true → le b c ≡ true → le a c ≡ true)
      → (x : A) (xs : List A) → Below le x xs
      → IsSorted le xs
      → All (λ y. le x y ≡ true) xs
  sorted-All le trans x [] b s = tt
  sorted-All le trans x (y ∷ ys) b s = (
    b,
    All-imp (λ z. le y z ≡ true) (λ z. le x z ≡ true) (λ z h. trans x y z b h) ys
        (sorted-All le trans y ys s.0 s.1),
  )

  All-Below :
      (le : A → A → Bool) (x : A) (xs : List A) → All (λ y. le x y ≡ true) xs → Below le x xs
  All-Below le x [] a = tt
  All-Below le x (y ∷ ys) a = a.0

  pub retain-IsSorted :
      (le : A → A → Bool)
      → ((a b c : A) → le a b ≡ true → le b c ≡ true → le a c ≡ true)
      → (p : A → Bool) (xs : List A) → IsSorted le xs
      → IsSorted le (retain p xs)
  retain-IsSorted le trans p [] s = tt
  retain-IsSorted le trans p (x ∷ xs) s =
      let rest = retain-IsSorted le trans p xs s.1 in
      elim (Bool-cases (p x)) [
        | inr out ↦ rw out rest
        | inl kept ↦
            let least = retain-All (λ y. le x y ≡ true) p xs (sorted-All le trans x xs s.0 s.1) in
            rw kept (All-Below le x (retain p xs) least, rest)
      ]
