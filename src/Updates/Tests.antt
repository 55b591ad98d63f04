-- ===== src/Updates/Tests.antt =====
-- A small download and a small manifest of crates/updater.
use fabdev.Prelude.{
  Semver, ℕ, ◌≡◌, refl, true, not, Option, none, some, List, [], ◌∷◌, ◌++◌, arith, ◌==◌,
  if◌then◌else◌, Text, codes, text_leb, is_ascii_digit, ok,
}
use fabdev.Updates.Segments.{DownloadSegment, plan_segments, resumed, pending, downloaded}
use fabdev.Updates.Segments.Tiling.{Tiles, plan_segments-Tiles, downloaded-plan_segments}
use fabdev.Updates.Release.{
  AppReleaseArtifact, AppReleaseManifest, matching, select_artifact, validate_manifest,
}
use fabdev.Updates.Release.Official.{IsOfficial, select_artifact-IsOfficial}

abbrev join_path : Text → Text → Text
join_path directory file = directory ++ (b'/' ∷ file)

abbrev segment : ℕ → ℕ → Text → DownloadSegment
segment start end path = record { start = start; end = end; path = path }

abbrev segments : List DownloadSegment
segments =
    segment 0 3 (codes "/tmp/a.part.0000.resume")
    ∷ segment 4 7 (codes "/tmp/a.part.0001.resume")
    ∷ segment 8 9 (codes "/tmp/a.part.0002.resume")
    ∷ []

three : plan_segments join_path (some (codes "a.part")) (some (codes "/tmp")) 10 4 ≡ ok segments
unfolding plan_segments
three = refl

-- The second segment is complete, the last one was cut off.
abbrev found : DownloadSegment → Option ℕ
found s = if s.start == 0 then none else if s.start == 4 then some 4 else some 1

plan_segments-Tiles_example : Tiles 4 0 10 segments
plan_segments-Tiles_example =
    plan_segments-Tiles join_path (some (codes "a.part")) (some (codes "/tmp")) 10 4 segments
      (omega arith) three

downloaded-plan_segments_example : downloaded (resumed found segments) (pending found segments) ≡ 10
downloaded-plan_segments_example =
    downloaded-plan_segments join_path (some (codes "a.part")) (some (codes "/tmp")) 10 4 segments
      found (omega arith) three

-- Versions that are compared as texts.
abbrev semver : Semver
semver = record {
  Version = Text;
  major = λ v. 8;
  parse = λ t. some t;
  pre_is_empty = λ v. true;
  build_is_empty = λ v. true;
  newer = λ a b. not (text_leb a b);
}

abbrev artifact : AppReleaseArtifact
artifact = record {
  platform = codes "macos";
  architecture = codes "arm64";
  minimum_os_version = codes "13.0";
  file_name = codes "fabDev-Community-1.2.3-macos-arm64.dmg";
  url =
      codes
        "https://github.com/JimmyWon1028/fabdev/releases/download/v1.2.3/fabDev-Community-1.2.3-macos-arm64.dmg";
  size = 1000;
  sha256 = codes "0123456789abcdef0123456789abcdef0123456789abcdef0123456789abcdef";
  signature = none;
  install_mode = codes "open-dmg";
}

abbrev manifest : AppReleaseManifest
manifest = record {
  schema_version = 1;
  product = codes "fabdev";
  channel = codes "stable";
  version = codes "1.2.3";
  tag = codes "v1.2.3";
  published_at = codes "2026-08-29T00:00:00Z";
  release_url = codes "https://github.com/JimmyWon1028/fabdev/releases/tag/v1.2.3";
  release_notes_url = codes "https://github.com/JimmyWon1028/fabdev/releases/tag/v1.2.3";
  unsigned_community_build = true;
  integrity = codes "sha256";
  compatibility = record { agent_protocol_version = 32; requires_full_installer = true };
  artifacts = artifact ∷ [];
}

accepted : validate_manifest semver manifest ≡ ok tt
unfolding validate_manifest is_ascii_digit
accepted = refl

selected : select_artifact manifest (codes "macos") (codes "arm64") ≡ ok artifact
unfolding select_artifact
selected = refl

select_artifact-IsOfficial_example :
    (matching (codes "macos") (codes "arm64") manifest.artifacts ≡ artifact ∷ [])
    × (artifact.platform ≡ codes "macos")
    × (artifact.architecture ≡ codes "arm64")
    × IsOfficial manifest.version artifact
select_artifact-IsOfficial_example =
    select_artifact-IsOfficial semver manifest (codes "macos") (codes "arm64") artifact accepted
      selected
