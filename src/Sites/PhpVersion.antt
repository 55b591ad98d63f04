-- ===== src/Sites/PhpVersion.antt =====
-- `PhpVersion` of crates/core/src/site.rs, and its column in crates/core/src/storage.rs.
pub mod RoundTrip
use fabdev.Prelude.{
  ℕ, zero, suc, ◌+◌, ◌-◌, ◌*◌, ◌/◌, ◌%◌, ◌^◌, ◌≤◌, ◌<◌, min, String, ◌≡◌, refl, sym, ap, ◌∙◌, subst,
  ◌≢◌, ◌↔◌, ◌⊎◌, inl, inr, Bool, true, false, not, ◌&&◌, ◌||◌, Option, none, some, List, [], ◌∷◌,
  ◌++◌, map, arith, ltb, leb, ◌==◌, if◌then◌else◌, ltb→lt, lt→ltb, leb→le, le→leb, ==→eq, ==_refl,
  Bool-cases, Option-cases, &&-true, is_some, ℤ, saturating_add, u8_max, u64_max, All, length,
  length-append, any, all, find, retain, length-retain-le, retain-All, Pairs, All-map, All-imp,
  All-both, All-map-imp, Pairs-map, Pairs-retain, length-map, any-false, find-true, find-All, Text,
  codes, text_eq, text_eq_refl, text_eq_iff, text_leb, text_leb_total, is_text, text_eq_sym, Result,
  ◌>>=◌, ◌>>◌, bail_if, context, Result-cases, is_whitespace, trim_start_matches, prepend,
  trim_end_matches, trim_matches, trim, is_ascii_lowercase, is_ascii_uppercase, is_ascii_digit,
  is_ascii_alphanumeric, lower, to_ascii_lowercase, utf8_width, len, starts_with, ends_with,
  is_empty, push_first, split, join, decimal, to_string, parse_digits, drop_plus, parse_uint, ok,
  err, pos, negsuc,
}

pub record PhpVersion : Type 0 where
  pub major : ℕ
  pub minor : ℕ

pub data PhpVersionError : Type 0 where
  invalid_php_version : Text → PhpVersionError

-- `Display`
unfoldable pub display : PhpVersion → Text
unfolding to_string
display v = to_string v.major ++ (b'.' ∷ to_string v.minor)

abbrev pub checked : Text → ℕ → ℕ → List Text → Result PhpVersionError PhpVersion
checked value major minor [] =
    if ltb major 7
    then err (invalid_php_version value)
    else ok (record { major = major; minor = minor })
checked value major minor (part ∷ parts) = err (invalid_php_version value)

abbrev pub with_minor : Text → ℕ → List Text → Result PhpVersionError PhpVersion
with_minor value major [] = err (invalid_php_version value)
with_minor value major (part ∷ parts) = do
  minor ← context (parse_uint u8_max part) (invalid_php_version value)
  checked value major minor parts

abbrev pub with_major : Text → List Text → Result PhpVersionError PhpVersion
with_major value [] = err (invalid_php_version value)
with_major value (part ∷ parts) = do
  major ← context (parse_uint u8_max part) (invalid_php_version value)
  with_minor value major parts

-- `FromStr`
unfoldable pub from_str : Text → Result PhpVersionError PhpVersion
unfolding parse_uint split
from_str value = with_major value (split b'.' value)

abbrev pub no_php_version : Text
no_php_version = codes "-"

unfoldable pub serialize_php_version : Option PhpVersion → Text
unfolding display
serialize_php_version none = no_php_version
serialize_php_version (some v) = display v

unfoldable pub parse_php_version : Text → Result PhpVersionError (Option PhpVersion)
unfolding from_str text_eq
parse_php_version value =
    if text_eq value no_php_version then ok none else (do v ← from_str value; ok (some v))
