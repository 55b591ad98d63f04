-- ===== src/Runtimes/Installed/Listed.antt =====
-- `list_installed_versions` of crates/runtime/src/lib.rs.
use fabdev.Prelude.{
  ℕ, ◌<◌, ◌⊎◌, sym, text_eq_iff, All, Pairs, sorted-All, ◌≡◌, refl, ap, ◌∙◌, inl, inr, Bool, true,
  false, ◌&&◌, Option, none, some, List, [], ◌∷◌, map, arith, ltb, ◌==◌, Bool-cases, u64_max, any,
  retain, Map, sort_by, any-sort_by, IsSorted, sort_by-IsSorted, Text, text_eq, ◌>>◌, split,
  parse_uint, ok, err, ◌||◌,
}
use fabdev.Runtimes.Installed.{Node, Shelf, Fallible, validate_identifier, is_dir}

-- `unwrap_or_default`
abbrev pub or_zero : Option ℕ → ℕ
or_zero none = 0
or_zero (some n) = n

unfoldable pub version_key : Text → List ℕ
unfolding split parse_uint
version_key value = map (λ part. or_zero (parse_uint u64_max part)) (split b'.' value)

-- The order of `Vec<u64>`
abbrev pub key_leb : List ℕ → List ℕ → Bool
key_leb [] ys = true
key_leb (x ∷ xs) [] = false
key_leb (x ∷ xs) (y ∷ ys) = ltb x y || (x == y && key_leb xs ys)

-- `sort_by_key` with `Reverse`
unfoldable pub is_not_older : Text → Text → Bool
unfolding version_key
is_not_older a b = key_leb (version_key b) (version_key a)

abbrev pub is_ok : Fallible (Unit {0}) → Bool
is_ok (ok x) = true
is_ok (err e) = false

abbrev pub is_listed : Text × Node → Bool
is_listed (version, n) = is_dir (some n) && is_ok (validate_identifier version)

unfoldable pub list_installed_versions : Shelf → Fallible (List Text)
unfolding validate_identifier is_not_older sort_by
list_installed_versions s = do
  validate_identifier s.name
  ok (sort_by is_not_older (map (λ e. e.0) (retain is_listed s.nodes)))

key_leb_total : (a b : List ℕ) → key_leb a b ≡ false → key_leb b a ≡ true
key_leb_total [] b h = cc
key_leb_total (x ∷ xs) [] h = refl
key_leb_total (x ∷ xs) (y ∷ ys) h = ground (arith, key_leb_total xs ys)

is_not_older_total : (a b : Text) → is_not_older a b ≡ false → is_not_older b a ≡ true
unfolding is_not_older
is_not_older_total a b h = key_leb_total (version_key b) (version_key a) h

and_true : (b : Bool) → (b && true) ≡ b
and_true true = refl
and_true false = refl

and_false : (b : Bool) → (b && false) ≡ false
and_false true = refl
and_false false = refl

any-listed :
    (v : Text) (m : Map Node)
    → any (text_eq v) (map (λ e. e.0) (retain is_listed m))
      ≡ any (λ e. text_eq v e.0 && is_listed e) m
any-listed v [] = refl
any-listed v (e ∷ m) = elim (Bool-cases (is_listed e)) [
  | inl kept ↦ rw (kept, and_true (text_eq v e.0), any-listed v m)
  | inr out ↦ rw (out, and_false (text_eq v e.0), any-listed v m)
]

-- A key comes after another: it goes on where the other ends, or has the greater number where the two
-- first differ.
abbrev pub ComesAfter : List ℕ → List ℕ → Type 0
ComesAfter [] ys = ⊥
ComesAfter (x ∷ xs) [] = Unit
ComesAfter (x ∷ xs) (y ∷ ys) = (y < x) ⊎ ((x ≡ y) × ComesAfter xs ys)

-- The version that is listed later is not the newer one.
abbrev pub NotOvertakenBy : Text → Text → Type 0
NotOvertakenBy a b = ¬ ComesAfter (version_key b) (version_key a)

key_leb-ComesAfter : (a b : List ℕ) → key_leb b a ≡ true → ¬ ComesAfter b a
key_leb-ComesAfter a [] h after = after
key_leb-ComesAfter [] (y ∷ ys) h after = cc
key_leb-ComesAfter (x ∷ xs) (y ∷ ys) h (inl above) = ground arith
key_leb-ComesAfter (x ∷ xs) (y ∷ ys) h (inr (same, after)) =
    key_leb-ComesAfter xs ys (ground arith) after

key_leb_trans : (a b c : List ℕ) → key_leb a b ≡ true → key_leb b c ≡ true → key_leb a c ≡ true
key_leb_trans [] b c h k = refl
key_leb_trans (x ∷ xs) [] c h k = cc
key_leb_trans (x ∷ xs) (y ∷ ys) [] h k = cc
key_leb_trans (x ∷ xs) (y ∷ ys) (z ∷ zs) h k = ground (arith, key_leb_trans xs ys zs)

is_not_older_trans :
    (a b c : Text) → is_not_older a b ≡ true → is_not_older b c ≡ true → is_not_older a c ≡ true
unfolding is_not_older
is_not_older_trans a b c h k = key_leb_trans (version_key c) (version_key b) (version_key a) k h

not_overtaken :
    (v : Text) (vs : List Text) → All (λ w. is_not_older v w ≡ true) vs → All (NotOvertakenBy v) vs
unfolding is_not_older
not_overtaken v [] h = tt
not_overtaken v (w ∷ vs) h =
    (key_leb-ComesAfter (version_key v) (version_key w) h.0, not_overtaken v vs h.1)

descending : (vs : List Text) → IsSorted is_not_older vs → Pairs NotOvertakenBy vs
descending [] s = tt
descending (v ∷ vs) s = (
  not_overtaken v vs (sorted-All is_not_older is_not_older_trans v vs s.0 s.1),
  descending vs s.1,
)

-- A directory of the shelf has the name.
abbrev pub has_dir : Text → Map Node → Bool
has_dir v m = any (λ e. text_eq v e.0 && is_dir (some e.1)) m

any-has_dir :
    (v : Text) (m : Map Node)
    → any (λ e. text_eq v e.0 && is_listed e) m ≡ (is_ok (validate_identifier v) && has_dir v m)
any-has_dir v [] = sym (and_false (is_ok (validate_identifier v)))
any-has_dir v ((k, n) ∷ m) = elim (Bool-cases (text_eq v k)) [
  | inr differ ↦ rw (differ, any-has_dir v m)
  | inl same ↦
      let e : v ≡ k = (text_eq_iff v k).0 same in
      rw (same, any-has_dir v m, sym e)
        (by_tests (is_ok (validate_identifier v)) (is_dir (some n)) (has_dir v m))
]
  where
    by_tests : (a b c : Bool) → ((b && a) || (a && c)) ≡ (a && (b || c))
    by_tests true true c = refl
    by_tests true false c = refl
    by_tests false true c = refl
    by_tests false false c = refl

pub list_installed_versions-Descends :
    (s : Shelf)
    → validate_identifier s.name ≡ ok tt
    → (versions : List Text) × (list_installed_versions s ≡ ok versions)
      × Pairs NotOvertakenBy versions
      × ((v : Text)
          → any (text_eq v) versions ≡ (is_ok (validate_identifier v) && has_dir v s.nodes))
unfolding list_installed_versions
list_installed_versions-Descends s named =
    let listed = map (λ (e : Text × Node). e.0) (retain is_listed s.nodes) in
    (
      sort_by is_not_older listed,
      ap (λ (m : Fallible (Unit {0})). m >> ok (sort_by is_not_older listed)) named,
      descending (sort_by is_not_older listed)
          (sort_by-IsSorted is_not_older is_not_older_total listed),
      λ v.
          any-sort_by (text_eq v) is_not_older listed
          ∙ any-listed v s.nodes
          ∙ any-has_dir v s.nodes,
    )
