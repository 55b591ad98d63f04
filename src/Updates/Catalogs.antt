-- ===== src/Updates/Catalogs.antt =====
-- The runtime catalogs that the updater accepts: crates/updater/src/runtime_updates.rs. What the servers
-- answer and which steps of a write succeed are arguments.
pub mod Advance
pub mod Selected
mod Tests
use fabdev.Prelude.{
  ℕ, Bool, not, ◌&&◌, Option, none, some, ◌++◌, ◌==◌, if◌then◌else◌, is_some, Semver, find, Text,
  codes, text_eq, Result, ◌>>=◌, ◌>>◌, bail_if, context, ok, err, ◌||◌,
}
use fabdev.Runtimes.Fields.{CatalogError}
use fabdev.Runtimes.Catalog.{RuntimeRelease, AcceptedRuntimeCatalog, RuntimeCatalogValidation}
use fabdev.Updates.Package.{DownloadError, Entry, verify_runtime_artifact}
use fabdev.Runtimes.Document.{Decoder, ValidatedRuntimeCatalog, parse_and_validate_runtime_catalog}

pub data CheckError : Type 0 where
  unavailable : Text → CheckError
  failed_validation : CatalogError → CheckError
  wrong_schema : ℕ → ℕ → CheckError
  failed_package : DownloadError → CheckError
  unwritable no_accepted no_catalog unsupported_schema no_release no_file_name panicked : CheckError

-- The files under the cache directory: the catalogs of schema 1 and 2, and the accepted state.
pub record Cache : Type 0 where
  pub catalog_v1 : Option Text
  pub catalog_v2 : Option Text
  pub accepted : Option AcceptedRuntimeCatalog

abbrev pub empty : Cache
empty = record { catalog_v1 = none; catalog_v2 = none; accepted = none }

-- `filter(|accepted| accepted.schema_version == version)`
abbrev pub of_schema : ℕ → Option AcceptedRuntimeCatalog → Option AcceptedRuntimeCatalog
of_schema version none = none
of_schema version (some a) = if a.schema_version == version then some a else none

abbrev pub or_failed : {A : Type 0} → Result CatalogError A → Result CheckError A
or_failed (ok a) = ok a
or_failed (err e) = err (failed_validation e)

abbrev pub accept_state : ValidatedRuntimeCatalog → AcceptedRuntimeCatalog
accept_state v = record {
  schema_version = v.catalog.schema_version;
  sequence = v.catalog.catalog_sequence;
  sha256 = v.sha256;
}

-- The version of the program, that of its protocol, and the time.
pub record Client : Type 0 where
  pub app_version : Text
  pub protocol_version : ℕ
  pub now : ℕ

unfoldable pub runtime_catalog_validation :
    Client → Option AcceptedRuntimeCatalog → RuntimeCatalogValidation
runtime_catalog_validation client accepted = record {
  current_app_version = client.app_version;
  current_agent_protocol_version = client.protocol_version;
  now_unix_seconds = client.now;
  accepted_catalog = accepted;
}

-- The steps of a write: the contents are in the partial file, the old file is removed or was not there,
-- and the partial file is renamed.
pub record Write : Type 0 where
  pub stages : Bool
  pub removes : Bool
  pub renames : Bool

-- What is under the path afterwards: the old file is removed before the rename.
unfoldable pub write_file_atomically :
    {A : Type 0} → Write → A → Option A → Option A × Result CheckError (Unit {0})
write_file_atomically w contents old =
    if not (w.stages && w.removes)
    then (old, err unwritable)
    else if not w.renames
    then (none, err unwritable)
    else (some contents, ok tt)

-- The catalog's file is written first, then the accepted state.
unfoldable pub persist_runtime_catalog :
    (catalog_write state_write : Write)
    → Text
    → ValidatedRuntimeCatalog
    → Cache
    → Cache × Result CheckError (Unit {0})
unfolding write_file_atomically
persist_runtime_catalog catalog_write state_write contents v cache =
    let old = if v.catalog.schema_version == 1 then cache.catalog_v1 else cache.catalog_v2 in
    let (file, written) = write_file_atomically catalog_write contents old in
    let filed =
      if v.catalog.schema_version == 1
      then record cache { catalog_v1 = file }
      else record cache { catalog_v2 = file } in
    let (state, saved) = write_file_atomically state_write (accept_state v) cache.accepted in
    if not (v.catalog.schema_version == 1 || v.catalog.schema_version == 2)
    then (cache, err unsupported_schema)
    else elim written [ err e ↦ (filed, err e) | ok _ ↦ (record filed { accepted = state }, saved) ]

module _ (semver : Semver) (decoder : Decoder) where
  unfoldable pub validate_fetched_runtime_catalog :
      Client → Text → ℕ → Option AcceptedRuntimeCatalog → Result CheckError ValidatedRuntimeCatalog
  unfolding runtime_catalog_validation parse_and_validate_runtime_catalog
  validate_fetched_runtime_catalog client contents schema accepted = do
    v ← or_failed (
        parse_and_validate_runtime_catalog semver decoder contents
          (runtime_catalog_validation client accepted))
    bail_if (not (v.catalog.schema_version == schema))
        (wrong_schema v.catalog.schema_version schema)
    ok v

  -- The contents that are taken, and what they were validated to.
  unfoldable pub fetched :
      Client
      → Result Text Text
      → Result Text Text
      → Option AcceptedRuntimeCatalog
      → Result CheckError (Text × ValidatedRuntimeCatalog)
  unfolding validate_fetched_runtime_catalog
  fetched client (ok contents) v1 accepted = do
    v ← validate_fetched_runtime_catalog client contents 2 (of_schema 2 accepted)
    ok (contents, v)
  fetched client (err e) v1 accepted =
      if is_some (of_schema 2 accepted) then err (unavailable e) else elim v1 [
        | err x ↦ err (unavailable x)
        | ok contents ↦ (do
          v ← validate_fetched_runtime_catalog client contents 1 (of_schema 1 accepted)
          ok (contents, v))
      ]

  unfoldable pub check_for_runtime_updates :
      Client
      → Result Text Text
      → Result Text Text
      → (catalog_write state_write : Write) → Cache
      → Cache × Result CheckError ValidatedRuntimeCatalog
  unfolding fetched persist_runtime_catalog
  check_for_runtime_updates client v2 v1 catalog_write state_write cache =
      elim (fetched client v2 v1 cache.accepted) [
        | err e ↦ (cache, err e)
        | ok (contents, v) ↦
            let (next, written) =
              persist_runtime_catalog catalog_write state_write contents v cache in
            (next, (do written; ok v))
      ]

  abbrev pub catalog_file : ℕ → Cache → Result CheckError (Option Text)
  catalog_file schema cache =
      if schema == 1
      then ok cache.catalog_v1
      else if schema == 2
      then ok cache.catalog_v2
      else err unsupported_schema

  unfoldable pub cached_runtime_catalog : Client → Cache → Result CheckError ValidatedRuntimeCatalog
  unfolding runtime_catalog_validation parse_and_validate_runtime_catalog
  cached_runtime_catalog client cache = do
    accepted ← context cache.accepted no_accepted
    file ← catalog_file accepted.schema_version cache
    contents ← context file no_catalog
    or_failed (
        parse_and_validate_runtime_catalog semver decoder contents
          (runtime_catalog_validation client (some accepted)))

unfoldable pub is_release : Text → Text → Text → Text → RuntimeRelease → Bool
unfolding text_eq
is_release name version platform architecture r =
    text_eq r.name name
    && (text_eq r.version version
        && (text_eq r.platform platform && text_eq r.architecture architecture))

unfoldable pub select_runtime_release :
    ValidatedRuntimeCatalog → Text → Text → Text → Text → Result CheckError RuntimeRelease
unfolding is_release
select_runtime_release v name version platform architecture =
    context (find (is_release name version platform architecture) v.catalog.runtimes) no_release

unfoldable pub runtime_package_cache_file_name : RuntimeRelease → Text
runtime_package_cache_file_name r = r.sha256 ++ codes ".tar.gz"

-- `path` is the file's name in the directory of packages.
pub record DownloadedRuntimeUpdate : Type 0 where
  pub catalog_sequence : ℕ
  pub name : Text
  pub version : Text
  pub platform : Text
  pub architecture : Text
  pub file_name : Text
  pub size : ℕ
  pub sha256 : Text
  pub path : Text

-- The error `panicked` is the `expect` on the file name.
unfoldable pub downloaded_runtime_update :
    ℕ → RuntimeRelease → Text → Result CheckError DownloadedRuntimeUpdate
downloaded_runtime_update sequence r path = elim r.file_name [
  | none ↦ err panicked
  | some file_name ↦ ok (record {
    catalog_sequence = sequence;
    name = r.name;
    version = r.version;
    platform = r.platform;
    architecture = r.architecture;
    file_name = file_name;
    size = r.size;
    sha256 = r.sha256;
    path = path;
  })
]

pub record RuntimeDownloadRequest : Type 0 where
  pub name : Text
  pub version : Text
  pub platform : Text
  pub architecture : Text

abbrev pub package_checked : Result DownloadError (Unit {0}) → Result CheckError (Unit {0})
package_checked (ok x) = ok x
package_checked (err e) = err (failed_package e)

-- The release that a request names in the cached catalog, and the sequence of the catalog.
unfoldable pub requested_release :
    Semver
    → Decoder
    → Client
    → Cache
    → RuntimeDownloadRequest
    → Result CheckError (ℕ × RuntimeRelease)
unfolding cached_runtime_catalog select_runtime_release
requested_release semver decoder client cache q = do
  catalog ← cached_runtime_catalog semver decoder client cache
  r ← select_runtime_release catalog q.name q.version q.platform q.architecture
  ok (catalog.catalog.catalog_sequence, r)

-- `pending` says what the names in the directory of packages are.
unfoldable pub verified_cached_runtime_update :
    Semver
    → Decoder
    → Client
    → Cache
    → (Text → Entry)
    → RuntimeDownloadRequest
    → Result CheckError DownloadedRuntimeUpdate
unfolding requested_release runtime_package_cache_file_name verify_runtime_artifact
    downloaded_runtime_update
verified_cached_runtime_update semver decoder client cache pending q = do
  (sequence, r) ← requested_release semver decoder client cache q
  file_name ← context r.file_name no_file_name
  package_checked
      (verify_runtime_artifact decoder.sha256 (pending (runtime_package_cache_file_name r)) r)
  downloaded_runtime_update sequence r (runtime_package_cache_file_name r)
