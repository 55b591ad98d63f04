-- ===== src/Updates/Package/Outcome.antt =====
-- What a download of a runtime package leaves behind: crates/updater/src/runtime_updates.rs.
use fabdev.Prelude.{
  ℕ, ◌-◌, ◌≤◌, ◌≡◌, refl, sym, subst, inl, inr, Bool, true, false, not, [], arith, ltb, ◌==◌,
  if◌then◌else◌, ==→eq, Bool-cases, length, Text, text_eq, text_eq_iff, Result, ok, err,
}
use fabdev.Runtimes.Catalog.{RuntimeRelease}
use fabdev.Updates.Package.{
  DownloadError, cancelled, unavailable, past_size, wrong_length, Entry, absent, directory, symlink,
  regular, Files, Response, Caller, Progress, remove_file_if_exists, rename,
  resumable_runtime_partial, is_appended, is_expected_length, verify_runtime_artifact, stream_into,
  take_stream, answer, finalize, download_runtime_artifact_inner, download_runtime_artifact,
}
use fabdev.Updates.Package.Stream.{
  IsWithin, IsVerified, IsSound, removed-absent, rename-IsSound, stream-IsSound, IsFaithful,
}

module _ (sha256 : Text → Text) where
  pub verify-IsVerified :
      (r : RuntimeRelease) (e : Entry)
      → verify_runtime_artifact sha256 e r ≡ ok tt
      → IsVerified sha256 r e
  unfolding verify_runtime_artifact
  verify-IsVerified r absent h = cc
  verify-IsVerified r directory h = cc
  verify-IsVerified r symlink h = cc
  verify-IsVerified r (regular c) h = elim (Bool-cases (length c == r.size)) [
    | inr short ↦ absurd (cc (rw short at h))
    | inl whole ↦ elim (Bool-cases (text_eq (sha256 c) r.sha256)) [
      | inr other ↦ absurd (cc (rw (whole, other) at h))
      | inl digest ↦ (==→eq (length c) r.size whole, (text_eq_iff (sha256 c) r.sha256).0 digest)
    ]
  ]

  verified-IsWithin : (r : RuntimeRelease) (e : Entry) → IsVerified sha256 r e → IsWithin r.size e
  verified-IsWithin r absent v = tt
  verified-IsWithin r directory v = tt
  verified-IsWithin r symlink v = tt
  verified-IsWithin r (regular c) v = omega (arith, v.0)

  finalize-IsSound :
      (r : RuntimeRelease) (before files : Files)
      → files.target ≡ before.target
      → IsSound sha256 r before (finalize sha256 r files)
  unfolding finalize
  finalize-IsSound r before files same = from (verify_runtime_artifact sha256 files.partial r) refl
    where
      from :
          (m : Result DownloadError (Unit {0}))
          → verify_runtime_artifact sha256 files.partial r ≡ m
          → IsSound sha256 r before
              (elim m [ err e ↦ (record files { partial = absent }, err e) | ok _ ↦ rename files ])
      from (err e) refused = (same, inr tt)
      from (ok x) valid =
          let verified = verify-IsVerified r files.partial valid in
          rename-IsSound sha256 r before files same (verified-IsWithin r files.partial verified)
            verified

  -- From a partial file that holds the bytes to go on from.
  answer-IsSound :
      (r : RuntimeRelease) (at_end : Bool) (before files : Files) (bytes : Text)
      (response : Response)
      → files.target ≡ before.target
      → IsWithin r.size files.partial
      → length bytes ≤ r.size
      → IsSound sha256 r before (answer sha256 r at_end files (length bytes) bytes response)
  unfolding answer
  answer-IsSound r at_end before files bytes response same w within =
      from (is_appended response (length bytes) r.size)
    where
      start : Bool → Progress
      start append =
          if append
          then record { downloaded = length bytes; hasher = bytes; written = bytes }
          else record { downloaded = 0; hasher = []; written = [] }

      start-IsFaithful : (append : Bool) → IsFaithful r.size (start append)
      start-IsFaithful true = (refl, refl, within)
      start-IsFaithful false = (refl, refl, omega arith)

      by_tests :
          (append past expected : Bool)
          → IsSound sha256 r before (
              if past
              then (files, err past_size)
              else if not expected
              then ((if append then record files { partial = absent } else files), err wrong_length)
              else stream_into sha256 r at_end response.stream files (start append))
      by_tests append true expected = (same, inr w)
      by_tests true false false = (same, inr tt)
      by_tests false false false = (same, inr w)
      by_tests append false true =
          stream-IsSound sha256 r at_end response.stream before files (start append) same
            (start-IsFaithful append)

      from :
          (m : Result DownloadError Bool)
          → IsSound sha256 r before (elim m [
            | err e ↦ (files, err e)
            | ok append ↦ take_stream sha256 r at_end files (length bytes) bytes response append
          ])
      from (err e) = (same, inr w)
      from (ok append) =
          let offset = if append then length bytes else 0 in
          by_tests append (ltb r.size offset)
            (is_expected_length response.content_length (r.size - offset))

  -- From what `resumable_runtime_partial` gives.
  abbrev Resumed : ℕ → Result DownloadError (Entry × (ℕ × Text)) → Type 0
  Resumed size (err e) = Unit
  Resumed size (ok (e, (n, c))) = IsWithin size e × (n ≡ length c) × (length c ≤ size)

  resumable-Resumed : (e : Entry) (size : ℕ) → Resumed size (resumable_runtime_partial e size)
  unfolding resumable_runtime_partial
  resumable-Resumed absent size = (tt, refl, omega arith)
  resumable-Resumed directory size = tt
  resumable-Resumed symlink size = (tt, refl, omega arith)
  resumable-Resumed (regular c) size = by_size (ltb size (length c)) refl
    where
      by_size :
          (b : Bool)
          → ltb size (length c) ≡ b
          → Resumed size (if b then ok (absent, (0, [])) else ok (regular c, (length c, c)))
      by_size true e = (tt, refl, omega arith)
      by_size false e = let within : length c ≤ size = ground arith in (within, refl, within)

  inner-IsSound :
      (r : RuntimeRelease) (caller : Caller) (response : Result Text Response) (files : Files)
      → IsSound sha256 r files (download_runtime_artifact_inner sha256 r caller response files)
  unfolding download_runtime_artifact_inner
  inner-IsSound r caller response files = by_start caller.at_start
    where
      go_on : Result DownloadError (Entry × (ℕ × Text)) → Files × Result DownloadError (Unit {0})
      go_on m = elim m [
        | err e ↦ (files, err e)
        | ok (partial, (downloaded, bytes)) ↦
            let resumed = record files { partial = partial } in
            if downloaded == r.size then finalize sha256 r resumed else elim response [
              | err e ↦ (resumed, err (unavailable e))
              | ok given ↦ answer sha256 r caller.at_end resumed downloaded bytes given
            ]
      ]

      by_response :
          (partial : Entry) (bytes : Text)
          → IsWithin r.size partial
          → length bytes ≤ r.size
          → (complete : Bool) (given : Result Text Response)
          → IsSound sha256 r files (
              let resumed = record files { partial = partial } in
              if complete then finalize sha256 r resumed else elim given [
                | err e ↦ (resumed, err (unavailable e))
                | ok a ↦ answer sha256 r caller.at_end resumed (length bytes) bytes a
              ])
      by_response partial bytes w within true given =
          finalize-IsSound r files (record files { partial = partial }) refl
      by_response partial bytes w within false (err e) = (refl, inr w)
      by_response partial bytes w within false (ok a) =
          answer-IsSound r caller.at_end files (record files { partial = partial }) bytes a refl w
            within

      from :
          (m : Result DownloadError (Entry × (ℕ × Text)))
          → Resumed r.size m
          → IsSound sha256 r files (go_on m)
      from (err e) w = (refl, inl refl)
      from (ok (partial, (n, bytes))) (w, counted, within) =
          subst (λ k. IsSound sha256 r files (go_on (ok (partial, (k, bytes))))) (sym counted)
            (by_response partial bytes w within (length bytes == r.size) response)

      by_start :
          (b : Bool)
          → IsSound sha256 r files (
              if b
              then (files, err cancelled)
              else go_on (resumable_runtime_partial files.partial r.size))
      by_start true = (refl, inl refl)
      by_start false =
          from (resumable_runtime_partial files.partial r.size)
            (resumable-Resumed files.partial r.size)

  -- Whatever the partial file held, the server answers and the caller cancels: after a success the
  -- target is a regular file of the release's size and SHA-256 and there is no partial file; after a
  -- failure the target is as before, and the partial path is as before or within the release's size.
  pub download_runtime_artifact-IsSound :
      (r : RuntimeRelease) (caller : Caller) (response : Result Text Response) (files : Files)
      → IsSound sha256 r files (download_runtime_artifact sha256 r caller response files)
  unfolding download_runtime_artifact
  download_runtime_artifact-IsSound r caller response files =
      from (download_runtime_artifact_inner sha256 r caller response files)
        (inner-IsSound r caller response files)
    where
      from :
          (got : Files × Result DownloadError (Unit {0}))
          → IsSound sha256 r files got
          → IsSound sha256 r files (elim got.1 [
            | ok _ ↦ (got.0, ok tt)
            | err e ↦
                if caller.after_error
                then elim (remove_file_if_exists got.0.partial) [
                  | err x ↦ (got.0, err x)
                  | ok gone ↦ (record got.0 { partial = gone }, err e)
                ]
                else (got.0, err e)
          ])
      from (next, ok x) sound = sound
      from (next, err e) sound = by_cancel caller.after_error
        where
          removal :
              (m : Result DownloadError Entry)
              → remove_file_if_exists next.partial ≡ m
              → IsSound sha256 r files (elim m [
                | err x ↦ (next, err x)
                | ok gone ↦ (record next { partial = gone }, err e)
              ])
          removal (err x) h = sound
          removal (ok gone) h =
              (sound.0, inr (subst (IsWithin r.size) (sym (removed-absent next.partial gone h)) tt))

          by_cancel :
              (b : Bool)
              → IsSound sha256 r files (
                  if b
                  then elim (remove_file_if_exists next.partial) [
                    | err x ↦ (next, err x)
                    | ok gone ↦ (record next { partial = gone }, err e)
                  ]
                  else (next, err e))
          by_cancel true = removal (remove_file_if_exists next.partial) refl
          by_cancel false = sound
