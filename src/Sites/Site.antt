-- ===== src/Sites/Site.antt =====
-- `create_site` and `edit_site` of crates/core/src/site.rs. The file system and the host's path
-- syntax are a parameter; a random identifier is an argument.
pub mod Checked
mod Tests
use fabdev.Prelude.{
  ℕ, zero, suc, ◌+◌, ◌-◌, ◌*◌, ◌/◌, ◌%◌, ◌^◌, ◌≤◌, ◌<◌, min, String, ◌≡◌, refl, sym, ap, ◌∙◌, subst,
  ◌≢◌, ◌↔◌, ◌⊎◌, inl, inr, Bool, true, false, not, ◌&&◌, ◌||◌, Option, none, some, List, [], ◌∷◌,
  ◌++◌, map, arith, ltb, leb, ◌==◌, if◌then◌else◌, ltb→lt, lt→ltb, leb→le, le→leb, ==→eq, ==_refl,
  Bool-cases, Option-cases, &&-true, is_some, ℤ, saturating_add, u8_max, u64_max, All, length,
  length-append, any, all, find, retain, length-retain-le, retain-All, Pairs, All-map, All-imp,
  All-both, All-map-imp, Pairs-map, Pairs-retain, length-map, any-false, find-true, find-All, Text,
  codes, text_eq, text_eq_refl, text_eq_iff, text_leb, text_leb_total, is_text, text_eq_sym, Result,
  ◌>>=◌, ◌>>◌, bail_if, context, Result-cases, is_whitespace, trim_start_matches, prepend,
  trim_end_matches, trim_matches, trim, is_ascii_lowercase, is_ascii_uppercase, is_ascii_digit,
  is_ascii_alphanumeric, lower, to_ascii_lowercase, utf8_width, len, starts_with, ends_with,
  is_empty, push_first, split, join, decimal, to_string, parse_digits, drop_plus, parse_uint, ok,
  err, pos, negsuc,
}
use fabdev.Sites.Domain.{normalize_domain, default_site_domain}
use fabdev.Sites.PhpVersion.{PhpVersion}

-- `Path` and `std::fs` as `create_site` asks them; `none` of `canonicalize` is an I/O error.
pub record Host : Type 0 where
  pub exists : Text → Bool
  pub is_dir : Text → Bool
  pub is_file : Text → Bool
  pub canonicalize : Text → Option Text
  pub file_name : Text → Option Text
  pub is_absolute : Text → Bool
  pub join : Text → Text → Text
  pub path_starts_with : Text → Text → Bool

pub record SiteInput : Type 0 where
  pub name : Option Text
  pub domain : Option Text
  pub project_path : Text
  pub document_root : Option Text
  pub php_version : Option PhpVersion
  pub upstream_response_timeout_seconds : Option ℕ

pub record SiteEditInput : Type 0 where
  pub name : Text
  pub domain : Text
  pub project_path : Text
  pub document_root : Option Text
  pub upstream_response_timeout_seconds : Option ℕ

pub record Site : Type 0 where
  pub id : ℕ
  pub name : Text
  pub domain : Text
  pub project_path : Text
  pub document_root : Text
  pub php_version : Option PhpVersion
  pub enabled : Bool
  pub secured : Bool
  pub upstream_response_timeout_seconds : ℕ

pub data SiteError : Type 0 where
  missing_project project_is_not_directory document_root_is_not_directory invalid_domain :
      Text → SiteError
  document_root_outside_project missing_project_name empty_name invalid_upstream_response_timeout
        resolve_path :
      SiteError

abbrev pub default_timeout : ℕ
default_timeout = 120

abbrev pub max_timeout : ℕ
max_timeout = 360

abbrev pub or_default {ℓ} : {A : Type ℓ} → A → Option A → A
or_default d none = d
or_default d (some a) = a

-- `filter(|name| !name.trim().is_empty()).unwrap_or(fallback)`
unfoldable pub site_name : Option Text → Text → Text
site_name none fallback = fallback
site_name (some name) fallback = if is_empty (trim name) then fallback else name

abbrev pub non_empty : Option Text → Option Text
non_empty none = none
non_empty (some name) = if is_empty name then none else some name

-- `input.or(Some(previous))`
abbrev pub or_previous : Option ℕ → ℕ → Option ℕ
or_previous none n = some n
or_previous (some m) n = some m

abbrev pub or_invalid : {E A : Type 0} → SiteError → Result E A → Result SiteError A
or_invalid e (ok a) = ok a
or_invalid e (err x) = err e

module _ (host : Host) where
  open host use {
    exists, is_dir, is_file, canonicalize, file_name, is_absolute, join, path_starts_with,
  }

  unfoldable pub detect_document_root : Text → Text
  detect_document_root project_path =
      let public = join project_path (codes "public") in
      if is_file (join public (codes "index.php")) || is_file (join public (codes "index.html"))
      then public
      else project_path

  -- The branch of a given document root.
  unfoldable pub given_document_root : Text → Text → Result SiteError Text
  given_document_root project_path path = do
    let candidate = if is_absolute path then path else join project_path path
    root ← context (canonicalize candidate) resolve_path
    bail_if (not (path_starts_with root project_path)) document_root_outside_project
    bail_if (not (is_dir root)) (document_root_is_not_directory root)
    ok root

  unfoldable pub document_root_of : Text → Option Text → Result SiteError Text
  unfolding given_document_root detect_document_root
  document_root_of project_path none = ok (detect_document_root project_path)
  document_root_of project_path (some path) = given_document_root project_path path

  unfoldable pub create_site : ℕ → SiteInput → Result SiteError Site
  unfolding site_name document_root_of
  create_site id input = do
    bail_if (not (exists input.project_path)) (missing_project input.project_path)
    bail_if (not (is_dir input.project_path)) (project_is_not_directory input.project_path)
    project_path ← context (canonicalize input.project_path) resolve_path
    fallback_name ← context (non_empty (file_name project_path)) missing_project_name
    let wanted = or_default (default_site_domain fallback_name) input.domain
    domain ← or_invalid (invalid_domain wanted) (normalize_domain wanted)
    document_root ← document_root_of project_path input.document_root
    let timeout = or_default default_timeout input.upstream_response_timeout_seconds
    bail_if (not (leb 1 timeout && leb timeout max_timeout)) invalid_upstream_response_timeout
    ok (record {
      id = id;
      name = site_name input.name fallback_name;
      domain = domain;
      project_path = project_path;
      document_root = document_root;
      php_version = input.php_version;
      enabled = true;
      secured = false;
      upstream_response_timeout_seconds = timeout;
    })

  unfoldable pub edit_site : ℕ → Site → SiteEditInput → Result SiteError Site
  edit_site id previous input = do
    let name = trim input.name
    bail_if (is_empty name) empty_name
    updated ← create_site id (record {
      name = some name;
      domain = some input.domain;
      project_path = input.project_path;
      document_root = input.document_root;
      php_version = previous.php_version;
      upstream_response_timeout_seconds =
          or_previous input.upstream_response_timeout_seconds
            previous.upstream_response_timeout_seconds;
    })
    ok (record updated { id = previous.id; enabled = previous.enabled; secured = previous.secured })
