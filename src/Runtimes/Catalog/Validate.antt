-- ===== src/Runtimes/Catalog/Validate.antt =====
-- `validate_runtime_catalog` of crates/runtime/src/lib.rs.
use fabdev.Prelude.{
  ℕ, ◌+◌, Bool, not, ◌&&◌, Option, none, some, List, [], ◌∷◌, ◌++◌, ltb, leb, ◌==◌, is_some, Semver,
  any, Text, codes, text_eq, ◌>>=◌, ◌>>◌, bail_if, context, is_empty, to_string, ok, ◌||◌,
}
use fabdev.Runtimes.Timestamp.{parse_rfc3339_utc}
use fabdev.Runtimes.Fields.{
  invalid, incompatible_app, incompatible_protocol, sequence_rollback, sequence_hash_mismatch,
  Checked, require, require_lowercase_sha256, timestamp, max_safe_json_integer,
}
use fabdev.Runtimes.Catalog.{
  RuntimeRelease, RuntimeCatalog, AcceptedRuntimeCatalog, RuntimeCatalogValidation,
  max_generated_at_future_seconds, minimum_protocol_version, validate_catalog_release,
}

-- The key of `identities`
unfoldable pub same_identity : RuntimeRelease → RuntimeRelease → Bool
unfolding text_eq
same_identity a b =
    text_eq a.name b.name
    && (text_eq a.version b.version
        && (text_eq a.platform b.platform && text_eq a.architecture b.architecture))

-- `identities` holds the releases before this one.
unfoldable pub validate_releases :
    Semver → ℕ → ℕ → ℕ → List RuntimeRelease → List RuntimeRelease → Checked
unfolding validate_catalog_release same_identity to_string
validate_releases semver schema sequence index identities [] = ok tt
validate_releases semver schema sequence index identities (r ∷ rs) =
    let rest = validate_releases semver schema sequence (index + 1) (r ∷ identities) rs in
    validate_catalog_release semver index schema sequence r
    >> (require (not (any (same_identity r) identities))
          (codes "runtimes[" ++ (to_string index ++ codes "]"))
        >> rest)

-- Not older than the catalog that was accepted before, and with the same contents if it is that one.
unfoldable pub validate_accepted : RuntimeCatalog → Text → Option AcceptedRuntimeCatalog → Checked
unfolding text_eq require_lowercase_sha256
validate_accepted catalog sha256 none = ok tt
validate_accepted catalog sha256 (some accepted) = do
  require (accepted.schema_version == catalog.schema_version)
      (codes "acceptedCatalog.schemaVersion")
  require_lowercase_sha256 accepted.sha256 (codes "acceptedCatalog.sha256")
  bail_if (ltb catalog.catalog_sequence accepted.sequence)
      (sequence_rollback catalog.catalog_sequence accepted.sequence)
  bail_if (catalog.catalog_sequence == accepted.sequence && not (text_eq sha256 accepted.sha256))
      (sequence_hash_mismatch catalog.catalog_sequence)

-- The first part of `validate_runtime_catalog`: the fields that do not depend on the time.
unfoldable pub validate_head : RuntimeCatalog → Text → Checked
unfolding text_eq require_lowercase_sha256
validate_head catalog sha256 = do
  require (catalog.schema_version == 1 || catalog.schema_version == 2) (codes "schemaVersion")
  require (text_eq catalog.product (codes "fabdev-runtime")) (codes "product")
  require (text_eq catalog.channel (codes "community")) (codes "channel")
  require (ltb 0 catalog.catalog_sequence && leb catalog.catalog_sequence max_safe_json_integer)
      (codes "catalogSequence")
  require catalog.unsigned_community_build (codes "unsignedCommunityBuild")
  require (text_eq catalog.integrity (codes "sha256")) (codes "integrity")
  require (not (is_some catalog.signature)) (codes "signature")
  require_lowercase_sha256 sha256 (codes "catalogSha256")

unfoldable pub validate_times : RuntimeCatalog → ℕ → Checked
unfolding parse_rfc3339_utc
validate_times catalog now = do
  generated_at ← timestamp (codes "generatedAt") (parse_rfc3339_utc catalog.generated_at)
  expires_at ← timestamp (codes "expiresAt") (parse_rfc3339_utc catalog.expires_at)
  require (leb generated_at (now + max_generated_at_future_seconds)) (codes "generatedAt")
  require (ltb generated_at expires_at) (codes "expiresAt")
  require (ltb now expires_at) (codes "expiresAt")

module _ (semver : Semver) where
  open semver use {Version, major, parse, pre_is_empty, build_is_empty, newer}

  -- The errors keep the versions as they were given; `semver` prints what it parsed.
  unfoldable pub validate_compatibility : RuntimeCatalog → RuntimeCatalogValidation → Checked
  validate_compatibility catalog validation = do
    let minimum = catalog.compatibility.minimum_agent_protocol_version
    minimum_app ←
        context (parse catalog.compatibility.minimum_app_version)
          (invalid (codes "compatibility.minimumAppVersion"))
    current_app ←
        context (parse validation.current_app_version) (invalid (codes "currentAppVersion"))
    bail_if (newer minimum_app current_app)
        (incompatible_app validation.current_app_version catalog.compatibility.minimum_app_version)
    require (leb minimum_protocol_version minimum)
        (codes "compatibility.minimumAgentProtocolVersion")
    bail_if (ltb validation.current_agent_protocol_version minimum)
        (incompatible_protocol validation.current_agent_protocol_version minimum)

  unfoldable pub validate_runtime_catalog :
      RuntimeCatalog → Text → RuntimeCatalogValidation → Checked
  unfolding validate_head validate_times validate_compatibility validate_accepted validate_releases
      is_empty
  validate_runtime_catalog catalog sha256 validation = do
    validate_head catalog sha256
    validate_times catalog validation.now_unix_seconds
    validate_compatibility catalog validation
    validate_accepted catalog sha256 validation.accepted_catalog
    require (not (is_empty catalog.runtimes)) (codes "runtimes")
    validate_releases semver catalog.schema_version catalog.catalog_sequence 0 [] catalog.runtimes
