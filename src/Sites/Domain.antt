-- ===== src/Sites/Domain.antt =====
-- `normalize_domain`, `slugify` and `default_site_domain` of crates/core/src/site.rs.
pub mod Normal
pub mod Slug
mod Tests
use fabdev.Prelude.{
  ℕ, zero, suc, ◌+◌, ◌-◌, ◌*◌, ◌/◌, ◌%◌, ◌^◌, ◌≤◌, ◌<◌, min, String, ◌≡◌, refl, sym, ap, ◌∙◌, subst,
  ◌≢◌, ◌↔◌, ◌⊎◌, inl, inr, Bool, true, false, not, ◌&&◌, ◌||◌, Option, none, some, List, [], ◌∷◌,
  ◌++◌, map, arith, ltb, leb, ◌==◌, if◌then◌else◌, ltb→lt, lt→ltb, leb→le, le→leb, ==→eq, ==_refl,
  Bool-cases, Option-cases, &&-true, is_some, ℤ, saturating_add, u8_max, u64_max, All, length,
  length-append, any, all, find, retain, length-retain-le, retain-All, Pairs, All-map, All-imp,
  All-both, All-map-imp, Pairs-map, Pairs-retain, length-map, any-false, find-true, find-All, Text,
  codes, text_eq, text_eq_refl, text_eq_iff, text_leb, text_leb_total, is_text, text_eq_sym, Result,
  ◌>>=◌, ◌>>◌, bail_if, context, Result-cases, is_whitespace, trim_start_matches, trim_end_matches,
  trim_matches, trim, is_ascii_lowercase, is_ascii_uppercase, is_ascii_digit, is_ascii_alphanumeric,
  lower, to_ascii_lowercase, utf8_width, len, starts_with, ends_with, is_empty, split, join,
  decimal, to_string, parse_digits, parse_uint, ok, err, pos, negsuc,
}

pub data DomainError : Type 0 where
  invalid_domain : Text → DomainError

abbrev pub is_dot : ℕ → Bool
is_dot c = c == b'.'

abbrev pub is_dash : ℕ → Bool
is_dash c = c == b'-'

unfoldable pub is_label_character : ℕ → Bool
unfolding is_ascii_alphanumeric
is_label_character c = is_ascii_alphanumeric c || is_dash c

unfoldable pub is_label : Text → Bool
unfolding len is_empty starts_with ends_with is_label_character
is_label label =
    not (is_empty label)
    && (leb (len label) 63
        && (not (starts_with (codes "-") label)
            && (not (ends_with (codes "-") label) && all is_label_character label)))

abbrev pub fold_domain : Text → Text
fold_domain value = to_ascii_lowercase (trim_end_matches is_dot (trim value))

-- What `normalize_domain` asks of the folded text.
unfoldable pub is_domain : Text → Bool
unfolding ends_with len split is_label
is_domain domain =
    if not (ends_with (codes ".test") domain) || ltb 253 (len domain)
    then false
    else all is_label (split b'.' domain)

unfoldable pub normalize_domain : Text → Result DomainError Text
unfolding is_domain trim_start_matches trim_end_matches is_whitespace lower
normalize_domain value =
    let domain = fold_domain value in
    if is_domain domain then ok domain else err (invalid_domain value)

abbrev pub slug_character : ℕ → ℕ
slug_character c = if is_ascii_alphanumeric c then lower c else b'-'

unfoldable pub slugify : Text → Text
unfolding is_ascii_alphanumeric lower trim_start_matches trim_end_matches is_empty
slugify value =
    let slug = trim_matches is_dash (map slug_character value) in
    if is_empty slug then codes "site" else slug

abbrev pub or_slug : Text → Result DomainError Text → Text
or_slug value (ok domain) = domain
or_slug value (err e) = slugify value ++ codes ".test"

unfoldable pub default_site_domain : Text → Text
unfolding normalize_domain slugify
default_site_domain value = or_slug value (normalize_domain (value ++ codes ".test"))
