-- ===== src/Updates/Package.antt =====
-- The download of a runtime package: `download_runtime_artifact` of
-- crates/updater/src/runtime_updates.rs. What the server answers and when the caller cancels are
-- arguments. A hasher is the bytes that it was given; a text stands for its bytes.
pub mod Stream
pub mod Outcome
pub mod Resume
mod Tests
use fabdev.Prelude.{
  ℕ, ◌+◌, ◌-◌, Bool, true, false, not, ◌&&◌, Option, none, some, List, [], ◌∷◌, ◌++◌, ltb, leb,
  ◌==◌, if◌then◌else◌, u64_max, length, Text, codes, text_eq, Result, ◌>>=◌, bail_if, to_string, ok,
  err,
}
use fabdev.Runtimes.Catalog.{RuntimeRelease}

pub data DownloadError : Type 0 where
  cancelled unwritable zero_size invalid_range past_size wrong_length broken overflow exceeds :
      DownloadError
  no_package incomplete wrong_size wrong_sha256 : DownloadError
  unavailable : Text → DownloadError
  unsuccessful invalid_initial invalid_resume : ℕ → DownloadError

-- What a path names: `symlink_metadata` does not follow a link.
pub data Entry : Type 0 where
  absent directory symlink : Entry
  regular : Text → Entry

pub record Files : Type 0 where
  pub partial : Entry
  pub target : Entry

-- What the loop sees: a chunk, a broken stream, a cancellation while it waits, and one after.
pub data Event : Type 0 where
  chunk : Text → Event
  lost waiting_cancelled found_cancelled : Event

pub record Response : Type 0 where
  pub status : ℕ
  pub content_range : Option Text
  pub content_length : Option ℕ
  pub stream : List Event

-- `is_cancelled` before the request, after the stream and after a failure
pub record Caller : Type 0 where
  pub at_start : Bool
  pub at_end : Bool
  pub after_error : Bool

-- `downloaded`, the hasher, and the contents of the open file.
pub record Progress : Type 0 where
  pub downloaded : ℕ
  pub hasher : Text
  pub written : Text

-- A directory is no file to remove.
unfoldable pub remove_file_if_exists : Entry → Result DownloadError Entry
remove_file_if_exists directory = err unwritable
remove_file_if_exists e = ok absent

-- The partial file takes the place of the target, unless a directory is there.
unfoldable pub rename : Files → Files × Result DownloadError (Unit {0})
rename files = elim files.target [
  | directory ↦ (files, err unwritable)
  | absent ↦ (record { partial = absent; target = files.partial }, ok tt)
  | symlink ↦ (record { partial = absent; target = files.partial }, ok tt)
  | regular c ↦ (record { partial = absent; target = files.partial }, ok tt)
]

abbrev pub is_status_error : ℕ → Bool
is_status_error status = leb 400 status && ltb status 600

unfoldable pub validate_runtime_content_range :
    Option Text → ℕ → ℕ → Result DownloadError (Unit {0})
unfolding to_string text_eq
validate_runtime_content_range header start total =
    if total == 0 then err zero_size else elim header [
      | none ↦ err invalid_range
      | some value ↦
          bail_if
            (not (
              text_eq value (
                codes "bytes "
                ++ (to_string start
                    ++ (b'-' ∷ (to_string (total - 1) ++ (b'/' ∷ to_string total)))))))
            invalid_range
    ]

-- The number of bytes and the bytes to go on from, and what the partial path names then.
unfoldable pub resumable_runtime_partial : Entry → ℕ → Result DownloadError (Entry × (ℕ × Text))
unfolding remove_file_if_exists
resumable_runtime_partial absent size = ok (absent, (0, []))
resumable_runtime_partial (regular c) size =
    if ltb size (length c) then ok (absent, (0, [])) else ok (regular c, (length c, c))
resumable_runtime_partial directory size = err unwritable
resumable_runtime_partial symlink size = ok (absent, (0, []))

-- Whether the response is appended to the partial file.
unfoldable pub is_appended : Response → ℕ → ℕ → Result DownloadError Bool
unfolding validate_runtime_content_range
is_appended response downloaded size =
    if downloaded == 0
    then (if is_status_error response.status
        then err (unsuccessful response.status)
        else if response.status == 200
        then ok false
        else err (invalid_initial response.status))
    else if response.status == 206
    then (validate_runtime_content_range response.content_range downloaded size >>= λ _. ok true)
    else if response.status == 200
    then ok false
    else if is_status_error response.status
    then err (unsuccessful response.status)
    else err (invalid_resume response.status)

unfoldable pub is_expected_length : Option ℕ → ℕ → Bool
is_expected_length none expected = true
is_expected_length (some n) expected = n == expected

-- The loop on the stream, and what the partial path names after it.
unfoldable pub receive : ℕ → List Event → Progress → Entry × Result DownloadError Progress
receive size [] p = (regular p.written, ok p)
receive size (chunk c ∷ es) p =
    let rest = receive size es (record {
      downloaded = p.downloaded + length c;
      hasher = p.hasher ++ c;
      written = p.written ++ c;
    }) in
    if ltb u64_max (p.downloaded + length c)
    then (regular p.written, err overflow)
    else if ltb size (p.downloaded + length c)
    then (absent, err exceeds)
    else rest
receive size (lost ∷ es) p = (regular p.written, err broken)
receive size (waiting_cancelled ∷ es) p = (regular p.written, err cancelled)
receive size (found_cancelled ∷ es) p = (absent, err cancelled)

module _ (sha256 : Text → Text) where
  unfoldable pub verify_runtime_artifact : Entry → RuntimeRelease → Result DownloadError (Unit {0})
  unfolding text_eq
  verify_runtime_artifact (regular c) r =
      if not (length c == r.size)
      then err wrong_size
      else bail_if (not (text_eq (sha256 c) r.sha256)) wrong_sha256
  verify_runtime_artifact absent r = err no_package
  verify_runtime_artifact directory r = err wrong_size
  verify_runtime_artifact symlink r = err wrong_size

  -- After the stream has ended.
  unfoldable pub finish :
      RuntimeRelease → Bool → Files → Progress → Files × Result DownloadError (Unit {0})
  unfolding text_eq rename
  finish r at_end files p =
      if at_end
      then (record files { partial = absent }, err cancelled)
      else if not (p.downloaded == r.size)
      then (files, err incomplete)
      else if not (text_eq (sha256 p.hasher) r.sha256)
      then (record files { partial = absent }, err wrong_sha256)
      else rename files

  unfoldable pub stream_into :
      RuntimeRelease
      → Bool
      → List Event
      → Files
      → Progress
      → Files × Result DownloadError (Unit {0})
  unfolding receive finish
  stream_into r at_end events files p =
      let (partial, received) = receive r.size events p in
      elim received [
        | err e ↦ (record files { partial = partial }, err e)
        | ok q ↦ finish r at_end (record files { partial = partial }) q
      ]

  -- The length of the answer, and then its stream, which is appended or starts anew.
  unfoldable pub take_stream :
      RuntimeRelease
      → Bool
      → Files
      → ℕ
      → Text
      → Response
      → Bool
      → Files × Result DownloadError (Unit {0})
  unfolding is_expected_length stream_into
  take_stream r at_end files downloaded bytes response append =
      let from = if append then downloaded else 0 in
      if ltb r.size from
      then (files, err past_size)
      else if not (is_expected_length response.content_length (r.size - from))
      then ((if append then record files { partial = absent } else files), err wrong_length)
      else stream_into r at_end response.stream files (
          if append
          then record { downloaded = downloaded; hasher = bytes; written = bytes }
          else record { downloaded = 0; hasher = []; written = [] })

  -- From the answer of the server on, with the bytes to go on from.
  unfoldable pub answer :
      RuntimeRelease → Bool → Files → ℕ → Text → Response → Files × Result DownloadError (Unit {0})
  unfolding is_appended take_stream
  answer r at_end files downloaded bytes response = elim (is_appended response downloaded r.size) [
    | err e ↦ (files, err e)
    | ok append ↦ take_stream r at_end files downloaded bytes response append
  ]

  -- The whole partial file is there: it is verified and becomes the target.
  unfoldable pub finalize : RuntimeRelease → Files → Files × Result DownloadError (Unit {0})
  unfolding verify_runtime_artifact rename
  finalize r files = elim (verify_runtime_artifact files.partial r) [
    | err e ↦ (record files { partial = absent }, err e)
    | ok _ ↦ rename files
  ]

  unfoldable pub download_runtime_artifact_inner :
      RuntimeRelease
      → Caller
      → Result Text Response
      → Files
      → Files × Result DownloadError (Unit {0})
  unfolding resumable_runtime_partial finalize answer
  download_runtime_artifact_inner r caller response files =
      if caller.at_start
      then (files, err cancelled)
      else elim (resumable_runtime_partial files.partial r.size) [
        | err e ↦ (files, err e)
        | ok (partial, (downloaded, bytes)) ↦
            let resumed = record files { partial = partial } in
            if downloaded == r.size then finalize r resumed else elim response [
              | err e ↦ (resumed, err (unavailable e))
              | ok given ↦ answer r caller.at_end resumed downloaded bytes given
            ]
      ]

  unfoldable pub download_runtime_artifact :
      RuntimeRelease
      → Caller
      → Result Text Response
      → Files
      → Files × Result DownloadError (Unit {0})
  unfolding download_runtime_artifact_inner remove_file_if_exists
  download_runtime_artifact r caller response files =
      let (next, result) = download_runtime_artifact_inner r caller response files in
      elim result [
        | ok _ ↦ (next, ok tt)
        | err e ↦
            if caller.after_error
            then elim (remove_file_if_exists next.partial) [
              | err x ↦ (next, err x)
              | ok gone ↦ (record next { partial = gone }, err e)
            ]
            else (next, err e)
      ]
