-- ===== src/Runtimes/Catalog.antt =====
-- The runtime catalog and its validation: crates/runtime/src/lib.rs. A time is a number of seconds from
-- 1970 on.
pub mod Validate
pub mod Trusted
use fabdev.Prelude.{
  ℕ, Bool, not, ◌&&◌, Option, List, [], ◌∷◌, ◌++◌, ltb, leb, ◌==◌, if◌then◌else◌, is_some, Semver,
  any, Text, codes, text_eq, ◌>>=◌, ◌>>◌, context, to_string, err, ◌||◌,
}
use fabdev.Runtimes.Fields.{
  invalid, Checked, require, require_lowercase_sha256, is_fingerprint, validate_numeric_version,
  require_optional_catalog_value, validate_versioned_release_url, validate_runtime_release_url,
}

pub record RuntimeCatalogCompatibility : Type 0 where
  pub minimum_app_version : Text
  pub minimum_agent_protocol_version : ℕ

pub record RuntimeSourceVerification : Type 0 where
  pub method : Text
  pub fingerprint : Option Text
  pub upstream_sha256 : Text

pub record RuntimeRelease : Type 0 where
  pub name : Text
  pub version : Text
  pub platform : Text
  pub architecture : Text
  pub minimum_os_version : Option Text
  pub file_name : Option Text
  pub url : Text
  pub size : ℕ
  pub sha256 : Text
  pub signature : Option Text
  pub source_verification : Option RuntimeSourceVerification
  pub archive_format : Option Text
  pub install_mode : Option Text
  pub health_check_profile : Option Text

pub record RuntimeCatalog : Type 0 where
  pub schema_version : ℕ
  pub product : Text
  pub channel : Text
  pub catalog_sequence : ℕ
  pub generated_at : Text
  pub expires_at : Text
  pub unsigned_community_build : Bool
  pub integrity : Text
  pub compatibility : RuntimeCatalogCompatibility
  pub signature : Option Text
  pub runtimes : List RuntimeRelease

pub record AcceptedRuntimeCatalog : Type 0 where
  pub schema_version : ℕ
  pub sequence : ℕ
  pub sha256 : Text

pub record RuntimeCatalogValidation : Type 0 where
  pub current_app_version : Text
  pub current_agent_protocol_version : ℕ
  pub now_unix_seconds : ℕ
  pub accepted_catalog : Option AcceptedRuntimeCatalog

abbrev pub max_runtime_bytes : ℕ
max_runtime_bytes = 2147483648

abbrev pub max_generated_at_future_seconds : ℕ
max_generated_at_future_seconds = 300

abbrev pub minimum_protocol_version : ℕ
minimum_protocol_version = 33

-- `field(name)` of the release with this index
unfoldable pub release_field : ℕ → Text → Text
unfolding to_string
release_field index name = codes "runtimes[" ++ (to_string index ++ (codes "]." ++ name))

abbrev pub is_one_of : List Text → Text → Bool
is_one_of names name = any (λ n. text_eq n name) names

unfoldable pub is_supported_target : Text → Text → Bool
unfolding text_eq
is_supported_target platform architecture =
    (text_eq platform (codes "macos") && text_eq architecture (codes "arm64"))
    || (text_eq platform (codes "windows") && text_eq architecture (codes "x64"))

-- The lowest major version and the health check of a runtime.
abbrev pub profile_of : Text → ℕ × Text
profile_of name =
    if text_eq name (codes "php")
    then (7, codes "php-runtime-v1")
    else if text_eq name (codes "mariadb")
    then (10, codes "mariadb-runtime-v1")
    else (20, codes "node-runtime-v1")

unfoldable pub package_file_name : Text → Text → Text → Text → Text
package_file_name name version platform architecture =
    name
    ++ (b'-'
        ∷ (version ++ (b'-' ∷ (platform ++ (b'-' ∷ (architecture ++ codes "-community.tar.gz"))))))

unfoldable pub validate_catalog_source_verification : ℕ → RuntimeSourceVerification → Checked
unfolding text_eq is_fingerprint release_field
validate_catalog_source_verification index source =
    if text_eq source.method (codes "official-sha256")
    then require (not (is_some source.fingerprint))
        (release_field index (codes "sourceVerification.fingerprint"))
    else if text_eq source.method (codes "pgp")
    then (do
      fingerprint ←
          context source.fingerprint
            (invalid (release_field index (codes "sourceVerification.fingerprint")))
      require (is_fingerprint fingerprint)
          (release_field index (codes "sourceVerification.fingerprint")))
    else err (invalid (release_field index (codes "sourceVerification.method")))

module _ (semver : Semver) where
  open semver use {Version, major, parse, pre_is_empty, build_is_empty, newer}

  unfoldable pub validate_catalog_runtime_version : ℕ → RuntimeRelease → Checked
  unfolding text_eq release_field
  validate_catalog_runtime_version index r = do
    version ← context (parse r.version) (invalid (release_field index (codes "version")))
    require
        (leb (profile_of r.name).0 (major version)
          && (pre_is_empty version && build_is_empty version))
        (release_field index (codes "version"))

  -- The URL of a release: each schema has its own host of releases.
  unfoldable pub validate_release_url : ℕ → ℕ → ℕ → Text → Text → Checked
  unfolding validate_versioned_release_url validate_runtime_release_url release_field
  validate_release_url index schema_version catalog_sequence url file_name =
      if schema_version == 1
      then validate_versioned_release_url semver url file_name (release_field index (codes "url"))
      else (do
        package_sequence ←
            validate_runtime_release_url url file_name (release_field index (codes "url"))
        require (leb package_sequence catalog_sequence) (release_field index (codes "url")))

  -- The four parts of `validate_catalog_release`, in their order.
  unfoldable pub validate_target : ℕ → RuntimeRelease → Checked
  unfolding text_eq release_field is_supported_target validate_catalog_runtime_version
      validate_numeric_version
  validate_target index r = do
    require (is_one_of (codes "php" ∷ codes "mariadb" ∷ codes "node" ∷ []) r.name)
        (release_field index (codes "name"))
    require (is_supported_target r.platform r.architecture) (release_field index (codes "platform"))
    validate_catalog_runtime_version index r
    minimum_os_version ←
        context r.minimum_os_version (invalid (release_field index (codes "minimumOsVersion")))
    validate_numeric_version minimum_os_version (release_field index (codes "minimumOsVersion"))

  unfoldable pub validate_file : ℕ → ℕ → ℕ → RuntimeRelease → Checked
  unfolding text_eq release_field package_file_name validate_release_url
  validate_file index schema_version catalog_sequence r = do
    file_name ← context r.file_name (invalid (release_field index (codes "fileName")))
    require (text_eq file_name (package_file_name r.name r.version r.platform r.architecture))
        (release_field index (codes "fileName"))
    validate_release_url index schema_version catalog_sequence r.url file_name

  unfoldable pub validate_bytes : ℕ → RuntimeRelease → Checked
  unfolding release_field require_lowercase_sha256
  validate_bytes index r = do
    require (ltb 0 r.size && leb r.size max_runtime_bytes) (release_field index (codes "size"))
    require_lowercase_sha256 r.sha256 (release_field index (codes "sha256"))
    require (not (is_some r.signature)) (release_field index (codes "signature"))

  unfoldable pub validate_source : ℕ → RuntimeRelease → Checked
  unfolding release_field require_lowercase_sha256 validate_catalog_source_verification
      require_optional_catalog_value
  validate_source index r = do
    source ←
        context r.source_verification (invalid (release_field index (codes "sourceVerification")))
    require_lowercase_sha256 source.upstream_sha256
        (release_field index (codes "sourceVerification.upstreamSha256"))
    validate_catalog_source_verification index source
    require_optional_catalog_value r.archive_format (codes "tar.gz")
        (release_field index (codes "archiveFormat"))
    require_optional_catalog_value r.install_mode (codes "side-by-side")
        (release_field index (codes "installMode"))
    require_optional_catalog_value r.health_check_profile (profile_of r.name).1
        (release_field index (codes "healthCheckProfile"))

  unfoldable pub validate_catalog_release : ℕ → ℕ → ℕ → RuntimeRelease → Checked
  unfolding validate_target validate_file validate_bytes validate_source
  validate_catalog_release index schema_version catalog_sequence r =
      validate_target index r
      >> (validate_file index schema_version catalog_sequence r
          >> (validate_bytes index r >> validate_source index r))
