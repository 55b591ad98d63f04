-- ===== src/Runtimes/Catalog/Trusted.antt =====
-- What a validated runtime catalog holds: crates/runtime/src/lib.rs.
use fabdev.Prelude.{
  ==→eq, ◌||◌, context-some, >>=-ok, ℕ, ◌+◌, ◌≤◌, ◌≡◌, refl, ap, ◌∙◌, inl, inr, true, false, not,
  ◌&&◌, Option, none, some, List, [], ◌∷◌, ◌++◌, arith, ltb, leb, ◌==◌, leb→le, Bool-cases,
  Option-cases, is_some, u64_max, strip_prefix, strip_suffix, strip_prefix-eq, strip_suffix-eq,
  Semver, All, any, Pairs, All-imp, any-false, Text, codes, text_eq, text_eq_iff, ◌>>=◌, ◌>>◌,
  context, Result-cases, >>-ok, is_empty, parse_uint, ok,
}
use fabdev.Runtimes.Fields.{
  require-true, CatalogError, invalid, require, is_lowercase_sha256, require_lowercase_sha256,
  release_tag, no_slash, validate_versioned_release_url, validate_runtime_release_url,
  release_download_prefix, runtime_release_download_prefix, max_safe_json_integer,
}
use fabdev.Runtimes.Catalog.{
  RuntimeRelease, RuntimeCatalog, AcceptedRuntimeCatalog, RuntimeCatalogValidation,
  max_runtime_bytes, is_supported_target, package_file_name, release_field, validate_release_url,
  validate_catalog_release, validate_target, validate_file, validate_bytes, validate_source,
}
use fabdev.Runtimes.Catalog.Validate.{
  same_identity, validate_releases, validate_accepted, validate_head, validate_times,
  validate_compatibility, validate_runtime_catalog,
}

-- The tag stands between the prefix and the file name, and has a character but no slash.
release_tag-eq :
    (prefix url file tag : Text)
    → release_tag prefix url file ≡ some tag
    → (url ≡ prefix ++ (tag ++ (b'/' ∷ file))) × (is_empty tag ≡ false) × (no_slash tag ≡ true)
unfolding release_tag
release_tag-eq prefix url file tag h = elim (Option-cases (strip_prefix prefix url)) [
  | inl missing ↦ absurd (ground arith)
  | inr (rest, stripped) ↦ elim (Option-cases (strip_suffix (b'/' ∷ file) rest)) [
    | inl missing ↦ absurd (ground arith)
    | inr (t, cut) ↦
        let same : t ≡ tag = ground arith in
        (
          strip_prefix-eq prefix url rest stripped
              ∙ ap (λ (x : Text). prefix ++ x) (strip_suffix-eq (b'/' ∷ file) rest t cut)
              ∙ ap (λ (x : Text). prefix ++ (x ++ (b'/' ∷ file))) same,
          ground arith,
          ground arith,
        )
  ]
]

-- A URL of the file under a tag of one path segment.
abbrev pub IsUrlOf : (prefix url file tag : Text) → Type 0
IsUrlOf prefix url file tag =
    (url ≡ prefix ++ (tag ++ (b'/' ∷ file))) × (is_empty tag ≡ false) × (no_slash tag ≡ true)

-- The URL names an official release: in schema 1 of the program, under a tag that is a version, and in
-- schema 2 of a catalog no newer than this one, under its sequence.
pub data IsOfficial (semver : Semver) (schema sequence : ℕ) (url file : Text) : Type 0 where
  of_program :
      (tag : Text)
      → schema ≡ 1
      → IsUrlOf release_download_prefix url file tag
      → is_some (semver.parse tag) ≡ true
      → IsOfficial semver schema sequence url file
  of_catalog :
      (tag : Text) (n : ℕ)
      → schema ≡ 2
      → IsUrlOf runtime_release_download_prefix url file tag
      → parse_uint u64_max tag ≡ some n
      → 1 ≤ n
      → n ≤ sequence
      → IsOfficial semver schema sequence url file

versioned-tag :
    (semver : Semver) (url file field : Text)
    → validate_versioned_release_url semver url file field ≡ ok tt
    → (tag : Text) × (release_tag release_download_prefix url file ≡ some tag)
      × (is_some (semver.parse tag) ≡ true)
unfolding validate_versioned_release_url
versioned-tag semver url file field h =
    let (tag, found, h1) =
      >>=-ok
        (context {E = CatalogError} (release_tag release_download_prefix url file) (invalid field))
        _ tt h in
    (
      tag,
      context-some (release_tag release_download_prefix url file) (invalid field) tag found,
      require-true (is_some (semver.parse tag)) field h1,
    )

runtime-tag :
    (url file field : Text) (n : ℕ)
    → validate_runtime_release_url url file field ≡ ok n
    → (tag : Text) × (release_tag runtime_release_download_prefix url file ≡ some tag)
      × (parse_uint u64_max tag ≡ some n)
      × (1 ≤ n)
unfolding validate_runtime_release_url
runtime-tag url file field n h = from (release_tag runtime_release_download_prefix url file) refl h
  where
    from :
        (o : Option Text)
        → release_tag runtime_release_download_prefix url file ≡ o
        → (do
          tag ← context o (invalid field)
          sequence ← context (parse_uint u64_max tag) (invalid field)
          require (ltb 0 sequence && leb sequence max_safe_json_integer) field
          ok sequence)
          ≡ ok n
        → (tag : Text) × (release_tag runtime_release_download_prefix url file ≡ some tag)
          × (parse_uint u64_max tag ≡ some n)
          × (1 ≤ n)
    from none e h = absurd (ground arith)
    from (some tag) e h = (tag, e, ground arith, ground arith)

second_schema : (n : ℕ) → (n == 1 || n == 2) ≡ true → (n == 1) ≡ false → n ≡ 2
second_schema n known other = ground arith

release_url-IsOfficial :
    (semver : Semver) (index schema sequence : ℕ) (url file : Text)
    → (schema == 1 || schema == 2) ≡ true
    → validate_release_url semver index schema sequence url file ≡ ok tt
    → IsOfficial semver schema sequence url file
unfolding validate_release_url
release_url-IsOfficial semver index schema sequence url file known h =
    let field = release_field index (codes "url") in
    elim (Bool-cases (schema == 1)) [
      | inl first ↦
          let (tag, found, parsed) = versioned-tag semver url file field (rw first at h) in
          of_program tag (==→eq schema 1 first)
            (release_tag-eq release_download_prefix url file tag found) parsed
      | inr second ↦ elim (Result-cases (validate_runtime_release_url url file field)) [
        | inl (e, refused) ↦ absurd (ground arith)
        | inr (n, valid) ↦
            let (tag, found, parsed, above) = runtime-tag url file field n valid in
            let past : leb n sequence ≡ true =
              require-true (leb n sequence) field (rw (second, valid) at h) in
            of_catalog tag n (second_schema schema known second)
              (release_tag-eq runtime_release_download_prefix url file tag found) parsed above
              (leb→le n sequence past)
      ]
    ]

pub record IsTrusted (semver : Semver) (schema sequence : ℕ) (r : RuntimeRelease) : Type 0 where
  pub target : is_supported_target r.platform r.architecture ≡ true
  pub official :
      (file : Text) × (r.file_name ≡ some file)
      × (file ≡ package_file_name r.name r.version r.platform r.architecture)
      × IsOfficial semver schema sequence r.url file
  pub some_bytes : 1 ≤ r.size
  pub bounded : r.size ≤ max_runtime_bytes
  pub digest : is_lowercase_sha256 r.sha256 ≡ true
  pub unsigned : r.signature ≡ none
  pub verified : is_some r.source_verification ≡ true

module _ (semver : Semver) (index schema sequence : ℕ) (r : RuntimeRelease)
    (known : (schema == 1 || schema == 2) ≡ true) where
  target-supported :
      validate_target semver index r ≡ ok tt → is_supported_target r.platform r.architecture ≡ true
  unfolding validate_target
  target-supported h = ground arith

  file-IsOfficial :
      validate_file semver index schema sequence r ≡ ok tt
      → (file : Text) × (r.file_name ≡ some file)
        × (file ≡ package_file_name r.name r.version r.platform r.architecture)
        × IsOfficial semver schema sequence r.url file
  unfolding validate_file
  file-IsOfficial h = elim (Option-cases r.file_name) [
    | inl missing ↦ absurd (ground arith)
    | inr (file, named) ↦
        let expected = package_file_name r.name r.version r.platform r.architecture in
        let (matches, url) =
          >>-ok (require (text_eq file expected) (release_field index (codes "fileName")))
            (validate_release_url semver index schema sequence r.url file) (rw named at h) in
        let same =
          require-true (text_eq file expected) (release_field index (codes "fileName")) matches in
        (
          file,
          named,
          (text_eq_iff file expected).0 same,
          release_url-IsOfficial semver index schema sequence r.url file known url,
        )
  ]

  bytes-unsigned : validate_bytes semver index r ≡ ok tt → r.signature ≡ none
  unfolding validate_bytes
  bytes-unsigned h = elim (Option-cases r.signature) [
    | inl absent ↦ absent
    | inr (signature, claimed) ↦ absurd (ground arith)
  ]

  bytes-digest : validate_bytes semver index r ≡ ok tt → is_lowercase_sha256 r.sha256 ≡ true
  unfolding validate_bytes require_lowercase_sha256
  bytes-digest h = ground arith

  bytes-size : validate_bytes semver index r ≡ ok tt → (1 ≤ r.size) × (r.size ≤ max_runtime_bytes)
  unfolding validate_bytes
  bytes-size h = (ground arith, ground arith)

  source-verified : validate_source semver index r ≡ ok tt → is_some r.source_verification ≡ true
  unfolding validate_source
  source-verified h = ground arith

  release-IsTrusted :
      validate_catalog_release semver index schema sequence r ≡ ok tt
      → IsTrusted semver schema sequence r
  unfolding validate_catalog_release
  release-IsTrusted h =
      let file = validate_file semver index schema sequence r in
      let bytes = validate_bytes semver index r in
      let source = validate_source semver index r in
      let (a, rest) = >>-ok (validate_target semver index r) (file >> (bytes >> source)) h in
      let (b, last) = >>-ok file (bytes >> source) rest in
      let (c, d) = >>-ok bytes source last in
      record {
        target = target-supported a;
        official = file-IsOfficial b;
        some_bytes = (bytes-size c).0;
        bounded = (bytes-size c).1;
        digest = bytes-digest c;
        unsigned = bytes-unsigned c;
        verified = source-verified d;
      }

abbrev pub OtherIdentity : RuntimeRelease → RuntimeRelease → Type 0
OtherIdentity a b = same_identity a b ≡ false

any-same :
    (r : RuntimeRelease) (seen : List RuntimeRelease)
    → any (same_identity r) seen ≡ false
    → All (λ s. same_identity r s ≡ false) seen
any-same r seen h = any-false (same_identity r) seen h

-- Each release is trusted, and of another identity than all before it.
releases-IsTrusted :
    (semver : Semver) (schema sequence index : ℕ) (seen rs : List RuntimeRelease)
    → (schema == 1 || schema == 2) ≡ true
    → validate_releases semver schema sequence index seen rs ≡ ok tt
    → All (IsTrusted semver schema sequence) rs
      × All (λ r. All (λ s. same_identity r s ≡ false) seen) rs
      × Pairs (λ a b. same_identity b a ≡ false) rs
unfolding validate_releases
releases-IsTrusted semver schema sequence index seen [] known h = (tt, tt, tt)
releases-IsTrusted semver schema sequence index seen (r ∷ rs) known h =
    elim (Result-cases (validate_catalog_release semver index schema sequence r)) [
      | inl (e, refused) ↦ absurd (ground arith)
      | inr (x, valid) ↦ elim (Bool-cases (any (same_identity r) seen)) [
        | inl again ↦ absurd (ground arith)
        | inr new ↦
            let (trusted, apart, pairs) =
              releases-IsTrusted semver schema sequence (index + 1) (r ∷ seen) rs known
                (ground arith) in
            (
              (release-IsTrusted semver index schema sequence r known valid, trusted),
              (
                any-same r seen new,
                All-imp (λ t. All (λ s. same_identity t s ≡ false) (r ∷ seen))
                    (λ t. All (λ s. same_identity t s ≡ false) seen) (λ t a. a.1) rs apart,
              ),
              (
                All-imp (λ t. All (λ s. same_identity t s ≡ false) (r ∷ seen))
                    (λ t. same_identity t r ≡ false) (λ t a. a.0) rs apart,
                pairs,
              ),
            )
      ]
    ]

-- Not older than what was accepted, and the same contents under the same sequence.
abbrev pub NotRolledBack : RuntimeCatalog → Text → Option AcceptedRuntimeCatalog → Type 0
NotRolledBack catalog sha256 none = Unit
NotRolledBack catalog sha256 (some accepted) =
    (accepted.schema_version ≡ catalog.schema_version)
    × (accepted.sequence ≤ catalog.catalog_sequence)
    × (catalog.catalog_sequence ≡ accepted.sequence → sha256 ≡ accepted.sha256)

accepted-NotRolledBack :
    (catalog : RuntimeCatalog) (sha256 : Text) (accepted : Option AcceptedRuntimeCatalog)
    → validate_accepted catalog sha256 accepted ≡ ok tt
    → NotRolledBack catalog sha256 accepted
unfolding validate_accepted
accepted-NotRolledBack catalog sha256 none h = tt
accepted-NotRolledBack catalog sha256 (some accepted) h =
    (ground arith, ground arith, λ same. ground (arith, text_eq_iff sha256 accepted.sha256))

head-known :
    (catalog : RuntimeCatalog) (sha256 : Text)
    → validate_head catalog sha256 ≡ ok tt
    → (catalog.schema_version == 1 || catalog.schema_version == 2) ≡ true
unfolding validate_head
head-known catalog sha256 h =
    let known = catalog.schema_version == 1 || catalog.schema_version == 2 in
    let (x, first, _) = >>=-ok (require known (codes "schemaVersion")) _ tt h in
    require-true known (codes "schemaVersion") first

-- A catalog that passes validation holds only trusted releases, each for a supported target with the
-- official file name, from 1 byte to 2 GiB, with a lower-case SHA-256, no signature claimed and a source
-- verification given, and with the URL of that file in a release of the program whose tag is a version, if
-- the catalog has schema 1, or in the release of a catalog sequence from 1 to its own, if it has schema 2,
-- and it has one of the two; no two releases have one identity; there is a release; and the catalog does
-- not roll back the accepted one.
pub validate_runtime_catalog-IsTrusted :
    (semver : Semver) (catalog : RuntimeCatalog) (sha256 : Text)
    (validation : RuntimeCatalogValidation)
    → validate_runtime_catalog semver catalog sha256 validation ≡ ok tt
    → All (IsTrusted semver catalog.schema_version catalog.catalog_sequence) catalog.runtimes
      × Pairs (λ a b. OtherIdentity b a) catalog.runtimes
      × (is_empty catalog.runtimes ≡ false)
      × NotRolledBack catalog sha256 validation.accepted_catalog
unfolding validate_runtime_catalog
validate_runtime_catalog-IsTrusted semver catalog sha256 validation h =
    let head = validate_head catalog sha256 in
    let times = validate_times catalog validation.now_unix_seconds in
    let compatible = validate_compatibility semver catalog validation in
    let accepted = validate_accepted catalog sha256 validation.accepted_catalog in
    let some_release = require (not (is_empty catalog.runtimes)) (codes "runtimes") in
    let releases =
      validate_releases semver catalog.schema_version catalog.catalog_sequence 0 []
        catalog.runtimes in
    let (headed, h1) =
      >>-ok head (times >> (compatible >> (accepted >> (some_release >> releases)))) h in
    let (_, h2) = >>-ok times (compatible >> (accepted >> (some_release >> releases))) h1 in
    let (_, h3) = >>-ok compatible (accepted >> (some_release >> releases)) h2 in
    let (a, h4) = >>-ok accepted (some_release >> releases) h3 in
    let (b, h5) = >>-ok some_release releases h4 in
    let (trusted, _, pairs) =
      releases-IsTrusted semver catalog.schema_version catalog.catalog_sequence 0 []
        catalog.runtimes (head-known catalog sha256 headed) h5 in
    let filled = require-true (not (is_empty catalog.runtimes)) (codes "runtimes") b in
    (
      trusted,
      pairs,
      ground (arith, filled),
      accepted-NotRolledBack catalog sha256 validation.accepted_catalog a,
    )
