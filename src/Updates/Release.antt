-- ===== src/Updates/Release.antt =====
-- The stable release manifest and the choice of its installer: crates/updater/src/lib.rs. The `semver`
-- crate is a parameter.
pub mod Official
use fabdev.Prelude.{
  Semver, ◌||◌, ℕ, zero, suc, ◌+◌, ◌-◌, ◌*◌, Bool, true, false, not, ◌&&◌, Option, none, some, List,
  [], ◌∷◌, ◌++◌, ltb, leb, ◌==◌, if◌then◌else◌, is_some, any, all, retain, Text, codes, text_eq,
  Result, ◌>>=◌, ◌>>◌, bail_if, context, is_ascii_digit, len, is_empty, ok, err,
}

pub record AppCompatibility : Type 0 where
  pub agent_protocol_version : ℕ
  pub requires_full_installer : Bool

pub record AppReleaseArtifact : Type 0 where
  pub platform : Text
  pub architecture : Text
  pub minimum_os_version : Text
  pub file_name : Text
  pub url : Text
  pub size : ℕ
  pub sha256 : Text
  pub signature : Option Text
  pub install_mode : Text

pub record AppReleaseManifest : Type 0 where
  pub schema_version : ℕ
  pub product : Text
  pub channel : Text
  pub version : Text
  pub tag : Text
  pub published_at : Text
  pub release_url : Text
  pub release_notes_url : Text
  pub unsigned_community_build : Bool
  pub integrity : Text
  pub compatibility : AppCompatibility
  pub artifacts : List AppReleaseArtifact

pub record AppUpdateArtifact : Type 0 where
  pub platform : Text
  pub architecture : Text
  pub minimum_os_version : Text
  pub file_name : Text
  pub size : ℕ
  pub sha256 : Text
  pub install_mode : Text

pub record AppUpdateCheck : Type 0 where
  pub current_version : Text
  pub latest_version : Text
  pub update_available : Bool
  pub published_at : Text
  pub release_url : Text
  pub release_notes_url : Text
  pub unsigned_community_build : Bool
  pub artifact : AppUpdateArtifact

pub data UpdateError : Type 0 where
  schema_version_error product_error version_error prerelease_error tag_error release_url_error
        integrity_error installer_error protocol_error published_error no_artifacts platform_error
        name_error url_error size_error sha256_error signature_error os_version_error
        missing_installer duplicate_installers :
      UpdateError

abbrev pub release_base_url : Text
release_base_url = codes "https://github.com/JimmyWon1028/fabdev/releases"

abbrev pub max_artifact_bytes : ℕ
max_artifact_bytes = 4294967296

abbrev is_hex : ℕ → Bool
is_hex b = is_ascii_digit b || (leb 97 b && leb b 102)

unfoldable pub is_lowercase_sha256 : Text → Bool
unfolding len
is_lowercase_sha256 value = len value == 64 && all is_hex value

unfoldable pub byte_at : ℕ → Text → ℕ
byte_at i [] = 0
byte_at zero (b ∷ s) = b
byte_at (suc i) (b ∷ s) = byte_at i s

-- The two digits from `start`.
unfoldable pub number : ℕ → Text → ℕ
unfolding byte_at
number start s = (byte_at start s - 48) * 10 + (byte_at (start + 1) s - 48)

abbrev separators : List ℕ
separators = 4 ∷ 7 ∷ 10 ∷ 13 ∷ 16 ∷ 19 ∷ []

unfoldable pub digits_from : ℕ → Text → Bool
digits_from index [] = true
digits_from index (b ∷ s) =
    (any (λ i. i == index) separators || is_ascii_digit b) && digits_from (index + 1) s

abbrev within : ℕ → ℕ → ℕ → Bool
within low high n = leb low n && leb n high

unfoldable pub is_utc_rfc3339_seconds : Text → Bool
unfolding len byte_at digits_from number
is_utc_rfc3339_seconds s =
    len s == 20
    && byte_at 4 s == 45
    && byte_at 7 s == 45
    && byte_at 10 s == 84
    && byte_at 13 s == 58
    && byte_at 16 s == 58
    && byte_at 19 s == 90
    && digits_from 0 s
    && within 1 12 (number 5 s)
    && within 1 31 (number 8 s)
    && leb (number 11 s) 23
    && leb (number 14 s) 59
    && leb (number 17 s) 59

abbrev mac : Text → Text → Bool
mac platform architecture = text_eq platform (codes "macos") && text_eq architecture (codes "arm64")

abbrev windows : Text → Text → Bool
windows platform architecture =
    text_eq platform (codes "windows") && text_eq architecture (codes "x64")

-- The file name and the install mode for a platform.
unfoldable pub expected : Text → Text → Text → Option (Text × Text)
unfolding text_eq
expected version platform architecture =
    if mac platform architecture
    then some (codes "fabDev-Community-" ++ (version ++ codes "-macos-arm64.dmg"), codes "open-dmg")
    else if windows platform architecture
    then some (
      codes "fabDev-Community-" ++ (version ++ codes "-windows-x64-setup.exe"),
      codes "run-installer-after-quit",
    )
    else none

unfoldable pub download_url : Text → Text → Text
download_url version file_name =
    release_base_url ++ (codes "/download/v" ++ (version ++ (codes "/" ++ file_name)))

unfoldable pub validate_artifact : Text → AppReleaseArtifact → Result UpdateError (Unit {0})
unfolding expected download_url is_lowercase_sha256 text_eq is_empty
validate_artifact version a = do
  (name, mode) ← context (expected version a.platform a.architecture) platform_error
  bail_if (not (text_eq a.file_name name) || not (text_eq a.install_mode mode)) name_error
  bail_if (not (text_eq a.url (download_url version a.file_name))) url_error
  bail_if (a.size == 0 || ltb max_artifact_bytes a.size) size_error
  bail_if (not (is_lowercase_sha256 a.sha256)) sha256_error
  bail_if (is_some a.signature) signature_error
  bail_if (is_empty a.minimum_os_version) os_version_error

unfoldable pub validate_artifacts : Text → List AppReleaseArtifact → Result UpdateError (Unit {0})
unfolding validate_artifact
validate_artifacts version [] = ok tt
validate_artifacts version (a ∷ rest) =
    let later = validate_artifacts version rest in validate_artifact version a >> later

abbrev no_artifact : List AppReleaseArtifact → Bool
no_artifact [] = true
no_artifact (a ∷ rest) = false

unfoldable pub matching : Text → Text → List AppReleaseArtifact → List AppReleaseArtifact
unfolding text_eq
matching platform architecture artifacts =
    retain (λ a. text_eq a.platform platform && text_eq a.architecture architecture) artifacts

abbrev pub only : List AppReleaseArtifact → Result UpdateError AppReleaseArtifact
only [] = err missing_installer
only (a ∷ []) = ok a
only (a ∷ b ∷ rest) = err duplicate_installers

unfoldable pub select_artifact :
    AppReleaseManifest → Text → Text → Result UpdateError AppReleaseArtifact
unfolding matching
select_artifact m platform architecture = only (matching platform architecture m.artifacts)

abbrev into_update : AppReleaseArtifact → AppUpdateArtifact
into_update a = record {
  platform = a.platform;
  architecture = a.architecture;
  minimum_os_version = a.minimum_os_version;
  file_name = a.file_name;
  size = a.size;
  sha256 = a.sha256;
  install_mode = a.install_mode;
}

module _ (semver : Semver) where
  open semver use {Version, parse, pre_is_empty, build_is_empty, newer}

  unfoldable pub validate_stable_version : Text → Result UpdateError Version
  validate_stable_version text = do
    version ← context (parse text) version_error
    bail_if (not (pre_is_empty version) || not (build_is_empty version)) prerelease_error
    ok version

  unfoldable pub validate_manifest : AppReleaseManifest → Result UpdateError (Unit {0})
  unfolding validate_stable_version validate_artifacts is_utc_rfc3339_seconds text_eq
  validate_manifest m = do
    let url = release_base_url ++ (codes "/tag/" ++ m.tag)
    bail_if (not (m.schema_version == 1)) schema_version_error
    bail_if (not (text_eq m.product (codes "fabdev")) || not (text_eq m.channel (codes "stable")))
        product_error
    validate_stable_version m.version
    bail_if (not (text_eq m.tag (codes "v" ++ m.version))) tag_error
    bail_if (not (text_eq m.release_url url) || not (text_eq m.release_notes_url url))
        release_url_error
    bail_if (not m.unsigned_community_build || not (text_eq m.integrity (codes "sha256")))
        integrity_error
    bail_if (not m.compatibility.requires_full_installer) installer_error
    bail_if (m.compatibility.agent_protocol_version == 0) protocol_error
    bail_if (not (is_utc_rfc3339_seconds m.published_at)) published_error
    bail_if (no_artifact m.artifacts) no_artifacts
    validate_artifacts m.version m.artifacts

  unfoldable pub build_update_check :
      AppReleaseManifest → Text → Text → Text → Result UpdateError AppUpdateCheck
  unfolding validate_stable_version select_artifact
  build_update_check m current_version platform architecture = do
    current ← context (parse current_version) version_error
    latest ← validate_stable_version m.version
    artifact ← select_artifact m platform architecture
    ok (record {
      current_version = current_version;
      latest_version = m.version;
      update_available = newer latest current;
      published_at = m.published_at;
      release_url = m.release_url;
      release_notes_url = m.release_notes_url;
      unsigned_community_build = m.unsigned_community_build;
      artifact = into_update artifact;
    })
