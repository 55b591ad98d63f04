-- ===== src/Updates/Catalogs/Selected.antt =====
-- The package that a request names: crates/updater/src/runtime_updates.rs.
use fabdev.Prelude.{
  ℕ, ◌≡◌, refl, ◌∙◌, subst, Bool, true, some, arith, &&-true, Semver, All, find, find-true,
  find-All, Text, text_eq_iff, Result, context, >>=-ok, context-some, ok-pair, ok-injective, ok,
  err,
}
use fabdev.Runtimes.Fields.{CatalogError}
use fabdev.Runtimes.Catalog.{RuntimeRelease, AcceptedRuntimeCatalog, package_file_name}
use fabdev.Runtimes.Catalog.Trusted.{IsTrusted, validate_runtime_catalog-IsTrusted}
use fabdev.Runtimes.Document.{
  Decoder, ValidatedRuntimeCatalog, parse_and_validate_runtime_catalog, parsed_valid,
}
use fabdev.Updates.Package.{DownloadError, Entry, verify_runtime_artifact}
use fabdev.Updates.Package.Stream.{IsVerified}
use fabdev.Updates.Package.Outcome.{verify-IsVerified}
use fabdev.Updates.Catalogs
use fabdev.Updates.Catalogs.{
  no_file_name, no_release, Cache, Client, or_failed, runtime_catalog_validation, catalog_file,
  cached_runtime_catalog, is_release, select_runtime_release, runtime_package_cache_file_name,
  DownloadedRuntimeUpdate, downloaded_runtime_update, RuntimeDownloadRequest, package_checked,
  requested_release, verified_cached_runtime_update,
}

or_failed-ok : {A : Type 0} (m : Result CatalogError A) (a : A) → or_failed m ≡ ok a → m ≡ ok a
or_failed-ok (ok x) a h = ground arith
or_failed-ok (err e) a h = cc

package_checked-ok : (m : Result DownloadError (Unit {0})) → package_checked m ≡ ok tt → m ≡ ok tt
package_checked-ok (ok x) h = refl
package_checked-ok (err e) h = cc

is_release-eq :
    (name version platform architecture : Text) (r : RuntimeRelease)
    → is_release name version platform architecture r ≡ true
    → (r.name ≡ name)
      × (r.version ≡ version)
      × (r.platform ≡ platform)
      × (r.architecture ≡ architecture)
unfolding is_release
is_release-eq name version platform architecture r h =
    let (a, h1) = &&-true _ _ h in
    let (b, h2) = &&-true _ _ h1 in
    let (c, d) = &&-true _ _ h2 in
    (
      (text_eq_iff r.name name).0 a,
      (text_eq_iff r.version version).0 b,
      (text_eq_iff r.platform platform).0 c,
      (text_eq_iff r.architecture architecture).0 d,
    )

selected_release :
    (semver : Semver) (v : ValidatedRuntimeCatalog) (x : RuntimeRelease)
    (q : RuntimeDownloadRequest)
    → All (IsTrusted semver v.catalog.schema_version v.catalog.catalog_sequence) v.catalog.runtimes
    → select_runtime_release v q.name q.version q.platform q.architecture ≡ ok x
    → IsTrusted semver v.catalog.schema_version v.catalog.catalog_sequence x
      × (x.name ≡ q.name)
      × (x.version ≡ q.version)
      × (x.platform ≡ q.platform)
      × (x.architecture ≡ q.architecture)
unfolding select_runtime_release
selected_release semver v x q trusted selected =
    let test : RuntimeRelease → Bool = is_release q.name q.version q.platform q.architecture in
    let found = context-some (find test v.catalog.runtimes) no_release x selected in
    let (a, b, c, d) =
      is_release-eq q.name q.version q.platform q.architecture x
        (find-true test v.catalog.runtimes x found) in
    (
      find-All (IsTrusted semver v.catalog.schema_version v.catalog.catalog_sequence) test
          v.catalog.runtimes x found trusted,
      a,
      b,
      c,
      d,
    )

module _ (semver : Semver) (decoder : Decoder) (client : Client) (cache : Cache) where
  cached-valid :
      (v : ValidatedRuntimeCatalog)
      → cached_runtime_catalog semver decoder client cache ≡ ok v
      → (accepted : AcceptedRuntimeCatalog) × (contents : Text)
        × (parse_and_validate_runtime_catalog semver decoder contents
              (runtime_catalog_validation client (some accepted))
            ≡ ok v)
  unfolding cached_runtime_catalog
  cached-valid v h =
      let (accepted, _, h1) = >>=-ok (context cache.accepted Catalogs.no_accepted) _ v h in
      let (read, _, h2) =
        >>=-ok (catalog_file semver decoder accepted.schema_version cache) _ v h1 in
      let (contents, _, h3) = >>=-ok (context read Catalogs.no_catalog) _ v h2 in
      (accepted, contents, or_failed-ok _ v h3)

  -- What a request is answered with: the first release of the cached catalog that has the identity asked
  -- for, with the sequence of that catalog, and it is trusted.
  abbrev pub Answers : RuntimeDownloadRequest → ℕ → RuntimeRelease → Type 0
  Answers q sequence r =
      (v : ValidatedRuntimeCatalog) × (cached_runtime_catalog semver decoder client cache ≡ ok v)
      × (sequence ≡ v.catalog.catalog_sequence)
      × (find (is_release q.name q.version q.platform q.architecture) v.catalog.runtimes ≡ some r)
      × IsTrusted semver v.catalog.schema_version v.catalog.catalog_sequence r
      × (r.name ≡ q.name)
      × (r.version ≡ q.version)
      × (r.platform ≡ q.platform)
      × (r.architecture ≡ q.architecture)

  requested-Answers :
      (q : RuntimeDownloadRequest) (sequence : ℕ) (r : RuntimeRelease)
      → requested_release semver decoder client cache q ≡ ok (sequence, r)
      → Answers q sequence r
  unfolding requested_release
  requested-Answers q sequence r h =
      let (v, cached, h1) =
        >>=-ok (cached_runtime_catalog semver decoder client cache) _ (sequence, r) h in
      let (x, selected, h2) =
        >>=-ok (select_runtime_release v q.name q.version q.platform q.architecture) _ (sequence, r)
          h1 in
      let (accepted, contents, parsed) = cached-valid v cached in
      let (valid, _) =
        parsed_valid semver decoder contents (runtime_catalog_validation client (some accepted)) v
          parsed in
      let (trusted, _, _, _) =
        validate_runtime_catalog-IsTrusted semver v.catalog v.sha256
          (runtime_catalog_validation client (some accepted)) valid in
      let (is_trusted, a, b, c, d) = selected_release semver v x q trusted selected in
      let test : RuntimeRelease → Bool = is_release q.name q.version q.platform q.architecture in
      let pair = ok-pair v.catalog.catalog_sequence sequence x r h2 in
      subst (λ n. Answers q n r) pair.0
        (subst (Answers q v.catalog.catalog_sequence) pair.1 (
          v,
          cached,
          refl,
          context-some (find test v.catalog.runtimes) no_release x selected,
          is_trusted,
          a,
          b,
          c,
          d,
        ))

  -- What an answer to a request says of the package.
  abbrev pub Describes :
      (Text → Entry) → RuntimeDownloadRequest → DownloadedRuntimeUpdate → RuntimeRelease → Type 0
  Describes pending q update r =
      Answers q update.catalog_sequence r
      × (update.name ≡ q.name)
      × (update.version ≡ q.version)
      × (update.platform ≡ q.platform)
      × (update.architecture ≡ q.architecture)
      × (update.file_name ≡ package_file_name q.name q.version q.platform q.architecture)
      × (update.path ≡ runtime_package_cache_file_name r)
      × (update.size ≡ r.size)
      × (update.sha256 ≡ r.sha256)
      × IsVerified decoder.sha256 r (pending update.path)

  downloaded-Describes :
      (pending : Text → Entry) (q : RuntimeDownloadRequest) (sequence : ℕ) (r : RuntimeRelease)
      (update : DownloadedRuntimeUpdate)
      → Answers q sequence r
      → IsVerified decoder.sha256 r (pending (runtime_package_cache_file_name r))
      → downloaded_runtime_update sequence r (runtime_package_cache_file_name r) ≡ ok update
      → Describes pending q update r
  unfolding downloaded_runtime_update package_file_name runtime_package_cache_file_name
  downloaded-Describes pending q sequence r update answers verified h =
      let (v, cached, same, found, trusted, a, b, c, d) = answers in
      let (file_name, named, expected, _) = trusted.official in
      let given : DownloadedRuntimeUpdate = record {
        catalog_sequence = sequence;
        name = r.name;
        version = r.version;
        platform = r.platform;
        architecture = r.architecture;
        file_name = file_name;
        size = r.size;
        sha256 = r.sha256;
        path = runtime_package_cache_file_name r;
      } in
      let e : given ≡ update = ok-injective given update (rw named at h) in
      subst (λ u. Describes pending q u r) e
        (answers, a, b, c, d, expected ∙ rw (a, b, c, d), refl, refl, refl, verified)

  -- A package that `verified_cached_runtime_update` gives for a request is the first release of the
  -- cached catalog that has the identity asked for: it has that identity, the sequence of that catalog, the
  -- file name that is made of the identity, and the size and SHA-256 of that release; the release is
  -- trusted; and the path names a regular file of this size and SHA-256.
  pub verified_cached_runtime_update-Describes :
      (pending : Text → Entry) (q : RuntimeDownloadRequest) (update : DownloadedRuntimeUpdate)
      → verified_cached_runtime_update semver decoder client cache pending q ≡ ok update
      → (r : RuntimeRelease) × Describes pending q update r
  unfolding verified_cached_runtime_update
  verified_cached_runtime_update-Describes pending q update h =
      let ((sequence, r), requested, h1) =
        >>=-ok (requested_release semver decoder client cache q) _ update h in
      let (file_name, named, h2) = >>=-ok (context r.file_name no_file_name) _ update h1 in
      let (x, checked, h3) =
        >>=-ok
          (package_checked (
            verify_runtime_artifact decoder.sha256 (pending (runtime_package_cache_file_name r)) r))
          _ update h2 in
      let found = pending (runtime_package_cache_file_name r) in
      let verified =
        verify-IsVerified decoder.sha256 r found
          (package_checked-ok (verify_runtime_artifact decoder.sha256 found r) checked) in
      (
        r,
        downloaded-Describes pending q sequence r update (requested-Answers q sequence r requested)
            verified h3,
      )
