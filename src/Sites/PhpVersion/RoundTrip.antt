-- ===== src/Sites/PhpVersion/RoundTrip.antt =====
-- Versions of crates/core/src/site.rs survive printing and the database column.
use fabdev.Prelude.{
  ◌+◌, subst, ℕ, zero, suc, ◌≤◌, ◌<◌, ◌≡◌, refl, inl, inr, Bool, true, false, not, ◌&&◌, Option,
  none, some, [], ◌∷◌, ◌++◌, arith, ◌==◌, ==_refl, Bool-cases, u8_max, all, Text, codes, text_eq,
  starts_with, is_empty, split, to_string, parse_uint, ok,
}
use fabdev.Sites.PhpVersion.{
  PhpVersion, display, from_str, serialize_php_version, parse_php_version, no_php_version,
}

abbrev is_some_of : Option ℕ → ℕ → Bool
is_some_of none n = false
is_some_of (some m) n = m == n

-- The test holds of the `count` numbers from `first` on.
holds_from : (ℕ → Bool) → (first count : ℕ) → Bool
holds_from test first zero = true
holds_from test first (suc count) = test first && holds_from test (first + 1) count

held :
    (test : ℕ → Bool) (first count k : ℕ)
    → holds_from test first count ≡ true
    → k < count
    → test (first + k) ≡ true
unfolding holds_from
held test first zero k h less = absurd (omega arith)
held test first (suc count) zero h less = ground arith
held test first (suc count) (suc k) h less =
    let rest = held test (first + 1) count k (ground arith) (omega arith) in
    let same : first + suc k ≡ first + 1 + k = omega arith in rw same rest

-- What the proofs need of one printed byte.
printed : ℕ → Bool
printed n =
    is_some_of (parse_uint u8_max (to_string n)) n
    && (all (λ c. not (c == b'.')) (to_string n) && not (starts_with (codes "-") (to_string n)))

printed_table : holds_from printed 0 256 ≡ true
unfolding holds_from printed parse_uint to_string starts_with
printed_table = refl

byte-printed : (n : ℕ) → n ≤ u8_max → printed n ≡ true
byte-printed n h =
    let start : 0 + n ≡ n = omega arith in
    subst (λ k. printed k ≡ true) start (held printed 0 256 n printed_table (omega arith))

is_some_of-eq : (o : Option ℕ) (n : ℕ) → is_some_of o n ≡ true → o ≡ some n
is_some_of-eq none n h = cc
is_some_of-eq (some m) n h = ground arith

module _ (n : ℕ) (small : n ≤ u8_max) where
  parse-to_string : parse_uint u8_max (to_string n) ≡ some n
  unfolding printed
  parse-to_string =
      is_some_of-eq (parse_uint u8_max (to_string n)) n (ground (arith, byte-printed n small))

  to_string-no_dot : all (λ c. not (c == b'.')) (to_string n) ≡ true
  unfolding printed
  to_string-no_dot = ground (arith, byte-printed n small)

  to_string-no_dash : starts_with (codes "-") (to_string n) ≡ false
  unfolding printed
  to_string-no_dash = ground (arith, byte-printed n small)

-- A byte's digits are followed by a dot only where the text puts one.
split-digits :
    (w r : Text)
    → all (λ c. not (c == b'.')) w ≡ true
    → split b'.' (w ++ (b'.' ∷ r)) ≡ w ∷ split b'.' r
unfolding split
split-digits [] r h = refl
split-digits (x ∷ w) r h = ground (arith, split-digits w r)

split-whole : (w : Text) → all (λ c. not (c == b'.')) w ≡ true → split b'.' w ≡ w ∷ []
unfolding split
split-whole [] h = refl
split-whole (x ∷ w) h = ground (arith, split-whole w)

pub record IsSupported (v : PhpVersion) : Type 0 where
  pub major_fits : v.major ≤ u8_max
  pub minor_fits : v.minor ≤ u8_max
  pub supported : 7 ≤ v.major

-- Parsing what a version prints gives the version back, if its major number is 7 or more and both its
-- numbers fit a byte.
pub from_str-display : (v : PhpVersion) → IsSupported v → from_str (display v) ≡ ok v
unfolding from_str display
from_str-display v s =
    simp
      (
        split-digits (to_string v.major) (to_string v.minor)
            (to_string-no_dot v.major s.major_fits),
        split-whole (to_string v.minor) (to_string-no_dot v.minor s.minor_fits),
        parse-to_string v.major s.major_fits,
        parse-to_string v.minor s.minor_fits,
      )
      (ground (arith, s.supported))

empty_parses : (w : Text) → is_empty w ≡ true → parse_uint u8_max w ≡ none
unfolding parse_uint is_empty
empty_parses [] h = refl
empty_parses (c ∷ w) h = cc

not_empty : (n : ℕ) → n ≤ u8_max → is_empty (to_string n) ≡ false
not_empty n h = elim (Bool-cases (is_empty (to_string n))) [
  | inr left ↦ left
  | inl gone ↦ absurd (cc (empty_parses (to_string n) gone, parse-to_string n h))
]

starts-append :
    (c : ℕ) (w r : Text)
    → starts_with (c ∷ []) w ≡ false
    → is_empty w ≡ false
    → text_eq (w ++ r) (c ∷ []) ≡ false
unfolding starts_with is_empty text_eq
starts-append c [] r h n = cc
starts-append c (d ∷ w) r h n = ground (arith, ==_refl d)

display-ne-none : (v : PhpVersion) → v.major ≤ u8_max → text_eq (display v) no_php_version ≡ false
unfolding display
display-ne-none v h =
    starts-append b'-' (to_string v.major) (b'.' ∷ to_string v.minor) (to_string-no_dash v.major h)
      (not_empty v.major h)

abbrev IsStorable : Option PhpVersion → Type 0
IsStorable none = Unit
IsStorable (some v) = IsSupported v

-- The database column gives back the version that was written, if its major number is 7 or more and
-- both its numbers fit a byte, and none for a site without PHP.
pub parse-serialize :
    (v : Option PhpVersion) → IsStorable v → parse_php_version (serialize_php_version v) ≡ ok v
unfolding parse_php_version serialize_php_version
parse-serialize none s = refl
parse-serialize (some v) s = rw (display-ne-none v s.major_fits) (rw (from_str-display v s))
