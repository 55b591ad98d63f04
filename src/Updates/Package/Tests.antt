-- ===== src/Updates/Package/Tests.antt =====
-- A package of seven bytes in two goes: crates/updater/src/runtime_updates.rs.
use fabdev.Prelude.{
  ◌≡◌, refl, ◌≢◌, some, List, [], ◌∷◌, ◌++◌, arith, if◌then◌else◌, Text, codes, text_eq, ok, err,
}
use fabdev.Runtimes.Sample.{digest, release}
use fabdev.Updates.Package.{
  absent, directory, regular, Files, chunk, lost, broken, download_runtime_artifact,
  validate_runtime_content_range,
}
use fabdev.Updates.Package.Stream.{IsSound}
use fabdev.Updates.Package.Outcome.{download_runtime_artifact-IsSound}
use fabdev.Updates.Package.Resume.{
  concat, chunks, uncancelled, whole_content, partial_content, download_runtime_artifact-resumes,
}

-- A digest that only the package has.
abbrev sha256 : Text → Text
sha256 c = if text_eq c (codes "runtime") then digest else c

abbrev before : Files
before = record { partial = regular (codes "run"); target = regular (codes "old") }

download_runtime_artifact-IsSound_example : IsSound sha256 release before (
    download_runtime_artifact sha256 release uncancelled
      (ok (partial_content (codes "bytes 3-6/7") (chunk (codes "time") ∷ [])))
      before)
download_runtime_artifact-IsSound_example =
    download_runtime_artifact-IsSound sha256 release uncancelled
      (ok (partial_content (codes "bytes 3-6/7") (chunk (codes "time") ∷ []))) before

abbrev first_chunks : List Text
first_chunks = codes "ru" ∷ codes "n" ∷ []

abbrev last_chunks : List Text
last_chunks = codes "ti" ∷ codes "me" ∷ []

header_valid : validate_runtime_content_range (some (codes "bytes 3-6/7")) 3 7 ≡ ok tt
unfolding validate_runtime_content_range
header_valid = refl

digest_matches : sha256 (concat first_chunks ++ concat last_chunks) ≡ digest
unfolding text_eq
digest_matches = refl

regular_not_directory : regular (codes "old") ≢ directory
regular_not_directory h = cc

download_runtime_artifact-resumes_example :
    (download_runtime_artifact sha256 release uncancelled
        (ok (whole_content (chunks first_chunks (lost ∷ []))))
        (record { partial = absent; target = regular (codes "old") })
      ≡ (record { partial = regular (codes "run"); target = regular (codes "old") }, err broken))
    × (download_runtime_artifact sha256 release uncancelled
          (ok (partial_content (codes "bytes 3-6/7") (chunks last_chunks [])))
          (record { partial = regular (codes "run"); target = regular (codes "old") })
        ≡ (record { partial = absent; target = regular (codes "runtime") }, ok tt))
download_runtime_artifact-resumes_example =
    download_runtime_artifact-resumes sha256 release (regular (codes "old")) first_chunks
      last_chunks (codes "bytes 3-6/7") (omega arith) regular_not_directory (omega arith)
      (omega arith) refl digest_matches header_valid
