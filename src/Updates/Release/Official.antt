-- ===== src/Updates/Release/Official.antt =====
-- A validated manifest gives only official installers: crates/updater/src/lib.rs.
use fabdev.Prelude.{
  Semver, ◌≤◌, ◌≡◌, sym, ap, ◌∙◌, subst, inl, inr, true, ◌&&◌, none, some, List, [], ◌∷◌, arith,
  Option-cases, All, retain-All, Text, text_eq, text_eq_iff, Result-cases, ok,
}
use fabdev.Updates.Release.{
  AppReleaseArtifact, AppReleaseManifest, max_artifact_bytes, is_lowercase_sha256, expected,
  download_url, validate_artifact, validate_artifacts, matching, only, select_artifact,
  validate_stable_version, validate_manifest,
}

-- What a download needs to know of its artifact.
pub record IsOfficial (version : Text) (a : AppReleaseArtifact) : Type 0 where
  pub url : a.url ≡ download_url version a.file_name
  pub named :
      (mode : Text) × (expected version a.platform a.architecture ≡ some (a.file_name, mode))
  pub some_bytes : 1 ≤ a.size
  pub bounded : a.size ≤ max_artifact_bytes
  pub digest : is_lowercase_sha256 a.sha256 ≡ true
  pub unsigned : a.signature ≡ none

validate_artifact-IsOfficial :
    (version : Text) (a : AppReleaseArtifact)
    → validate_artifact version a ≡ ok tt
    → IsOfficial version a
unfolding validate_artifact
validate_artifact-IsOfficial version a h =
    elim (Option-cases (expected version a.platform a.architecture)) [
      | inl unknown ↦ absurd (ground arith)
      | inr ((name, mode), found) ↦
          let same : text_eq a.file_name name ≡ true = ground arith in
          let is_url : text_eq a.url (download_url version a.file_name) ≡ true = ground arith in
          record {
            url = (text_eq_iff a.url (download_url version a.file_name)).0 is_url;
            named = (
              mode,
              found ∙ ap (λ n. some (n, mode)) (sym ((text_eq_iff a.file_name name).0 same)),
            );
            some_bytes = ground arith;
            bounded = ground arith;
            digest = ground arith;
            unsigned = elim (Option-cases a.signature) [
              | inl absent ↦ absent
              | inr (signature, claimed) ↦ absurd (ground arith)
            ];
          }
    ]

validate_artifacts-All :
    (version : Text) (artifacts : List AppReleaseArtifact)
    → validate_artifacts version artifacts ≡ ok tt
    → All (IsOfficial version) artifacts
unfolding validate_artifacts
validate_artifacts-All version [] h = tt
validate_artifacts-All version (a ∷ rest) h = elim (Result-cases (validate_artifact version a)) [
  | inl (e, refused) ↦ absurd (ground arith)
  | inr (x, valid) ↦ (
    validate_artifact-IsOfficial version a valid,
    validate_artifacts-All version rest (ground arith),
  )
]

module _ (semver : Semver) (m : AppReleaseManifest) (v : validate_manifest semver m ≡ ok tt) where
  artifacts-valid : validate_artifacts m.version m.artifacts ≡ ok tt
  unfolding validate_manifest
  artifacts-valid = elim (Result-cases (validate_stable_version semver m.version)) [
    | inl (e, refused) ↦ absurd (ground arith)
    | inr (version, stable) ↦ ground arith
  ]

only-ok :
    (artifacts : List AppReleaseArtifact) (a : AppReleaseArtifact)
    → only artifacts ≡ ok a
    → artifacts ≡ a ∷ []
only-ok [] a h = absurd (ground arith)
only-ok (b ∷ []) a h = ground arith
only-ok (b ∷ c ∷ rest) a h = absurd (ground arith)

matching-platform :
    (platform architecture : Text) (artifacts : List AppReleaseArtifact)
    → All
        (λ a. (a.platform ≡ platform) × (a.architecture ≡ architecture))
        (matching platform architecture artifacts)
unfolding matching
matching-platform platform architecture [] = tt
matching-platform platform architecture (a ∷ rest) = ground (
  arith,
  matching-platform platform architecture rest,
  text_eq_iff a.platform platform,
  text_eq_iff a.architecture architecture,
)

matching-All :
    (platform architecture version : Text) (artifacts : List AppReleaseArtifact)
    → All (IsOfficial version) artifacts
    → All (IsOfficial version) (matching platform architecture artifacts)
unfolding matching
matching-All platform architecture version artifacts a =
    retain-All (IsOfficial version)
      (λ x. text_eq x.platform platform && text_eq x.architecture architecture) artifacts a

-- The installer that is selected from a manifest that passes validation is for the platform and the
-- architecture asked for, is the manifest's only one for them, has the official file name and download
-- URL of the manifest's version, a size from 1 byte to 4 GiB and a lower-case SHA-256, and claims no
-- signature.
pub select_artifact-IsOfficial :
    (semver : Semver) (m : AppReleaseManifest) (platform architecture : Text)
    (a : AppReleaseArtifact)
    → validate_manifest semver m ≡ ok tt
    → select_artifact m platform architecture ≡ ok a
    → (matching platform architecture m.artifacts ≡ a ∷ [])
      × (a.platform ≡ platform)
      × (a.architecture ≡ architecture)
      × IsOfficial m.version a
unfolding select_artifact
select_artifact-IsOfficial semver m platform architecture a v h =
    let alone = only-ok (matching platform architecture m.artifacts) a h in
    let fits =
      subst (All (λ x. (x.platform ≡ platform) × (x.architecture ≡ architecture))) alone
        (matching-platform platform architecture m.artifacts) in
    let official = subst (All (IsOfficial m.version)) alone (
      matching-All platform architecture m.version m.artifacts
        (validate_artifacts-All m.version m.artifacts (artifacts-valid semver m v))) in
    (alone, fits.0.0, fits.0.1, official.0)
