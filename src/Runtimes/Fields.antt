-- ===== src/Runtimes/Fields.antt =====
-- The checks of single fields of the runtime catalog: crates/runtime/src/lib.rs. An error keeps the name
-- of its field, not the message.
use fabdev.Prelude.{
  ℕ, ◌≡◌, refl, Bool, true, false, not, ◌&&◌, Option, none, some, ◌∷◌, ltb, leb, ◌==◌,
  if◌then◌else◌, is_some, u64_max, strip_prefix, strip_suffix, Semver, length, all, Text, codes,
  text_eq, is_text, Result, ◌>>=◌, ◌>>◌, context, is_ascii_digit, len, is_empty, split, parse_uint,
  ok, err, ◌||◌,
}
use fabdev.Runtimes.Timestamp.{TimestampError, is_digits}

pub data CatalogError : Type 0 where
  too_large json : CatalogError
  invalid : Text → CatalogError
  incompatible_app : Text → Text → CatalogError
  incompatible_protocol sequence_rollback : ℕ → ℕ → CatalogError
  sequence_hash_mismatch : ℕ → CatalogError

abbrev pub Checked : Type 0
Checked = Result CatalogError (Unit {0})

abbrev pub max_safe_json_integer : ℕ
max_safe_json_integer = 9007199254740991

abbrev pub release_download_prefix : Text
release_download_prefix = codes "https://github.com/JimmyWon1028/fabdev/releases/download/v"

abbrev pub runtime_release_download_prefix : Text
runtime_release_download_prefix =
    codes "https://github.com/JimmyWon1028/fabdev-runtimes/releases/download/catalog-v"

-- `require_catalog_value`
abbrev pub require : Bool → Text → Checked
require true field = ok tt
require false field = err (invalid field)

abbrev is_hex : ℕ → Bool
is_hex b = is_ascii_digit b || (leb b'a' b && leb b b'f')

abbrev is_upper_hex : ℕ → Bool
is_upper_hex b = is_ascii_digit b || (leb b'A' b && leb b b'F')

unfoldable pub is_lowercase_sha256 : Text → Bool
unfolding len
is_lowercase_sha256 value = len value == 64 && all is_hex value

unfoldable pub require_lowercase_sha256 : Text → Text → Checked
unfolding is_lowercase_sha256
require_lowercase_sha256 value field = require (is_lowercase_sha256 value) field

unfoldable pub is_fingerprint : Text → Bool
unfolding len
is_fingerprint value = len value == 40 && all is_upper_hex value

unfoldable pub is_numeric_version : Text → Bool
unfolding is_digits split
is_numeric_version value =
    let parts = split b'.' value in (length parts == 2 || length parts == 3) && all is_digits parts

unfoldable pub validate_numeric_version : Text → Text → Checked
unfolding is_numeric_version
validate_numeric_version value field = require (is_numeric_version value) field

unfoldable pub require_optional_catalog_value : Option Text → Text → Text → Checked
unfolding text_eq
require_optional_catalog_value actual expected field = require (is_text actual expected) field

abbrev pub timestamp : {A : Type 0} → Text → Result TimestampError A → Result CatalogError A
timestamp field (ok a) = ok a
timestamp field (err e) = err (invalid field)

abbrev pub no_slash : Text → Bool
no_slash s = all (λ c. not (c == b'/')) s

-- What stands between the prefix and `/file_name`, not empty and without a slash.
unfoldable pub release_tag : Text → Text → Text → Option Text
unfolding strip_prefix strip_suffix is_empty
release_tag prefix url file_name = elim (strip_prefix prefix url) [
  | none ↦ none
  | some remainder ↦ elim (strip_suffix (b'/' ∷ file_name) remainder) [
    | none ↦ none
    | some tag ↦ if not (is_empty tag) && no_slash tag then some tag else none
  ]
]

unfoldable pub validate_versioned_release_url : Semver → Text → Text → Text → Checked
unfolding release_tag
validate_versioned_release_url semver url file_name field = do
  tag ← context (release_tag release_download_prefix url file_name) (invalid field)
  require (is_some (semver.parse tag)) field

unfoldable pub validate_runtime_release_url : Text → Text → Text → Result CatalogError ℕ
unfolding release_tag parse_uint
validate_runtime_release_url url file_name field = do
  tag ← context (release_tag runtime_release_download_prefix url file_name) (invalid field)
  sequence ← context (parse_uint u64_max tag) (invalid field)
  require (ltb 0 sequence && leb sequence max_safe_json_integer) field
  ok sequence

pub require-true : (b : Bool) (field : Text) → require b field ≡ ok tt → b ≡ true
require-true true field h = refl
require-true false field h = cc
