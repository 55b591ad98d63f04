-- ===== src/Updates/Package/Resume.antt =====
-- A runtime package is downloaded in several goes: crates/updater/src/runtime_updates.rs.
use fabdev.Prelude.{
  ℕ, ◌+◌, ◌≤◌, ◌<◌, ◌≡◌, refl, sym, ap, ◌∙◌, ◌≢◌, true, false, none, some, List, [], ◌∷◌, ◌++◌,
  arith, ltb, ◌==◌, ==_refl, u64_max, length, length-append, Text, text_eq, text_eq_iff, Result, ok,
  err,
}
use fabdev.Runtimes.Catalog.{RuntimeRelease}
use fabdev.Updates.Package.{
  DownloadError, broken, Entry, absent, directory, symlink, regular, Files, Event, chunk, lost,
  Response, Caller, Progress, rename, resumable_runtime_partial, is_appended, receive,
  validate_runtime_content_range, finish, stream_into, take_stream, answer,
  download_runtime_artifact_inner, download_runtime_artifact,
}

abbrev pub concat : List Text → Text
concat [] = []
concat (c ∷ cs) = c ++ concat cs

-- The stream of these chunks.
abbrev pub chunks : List Text → List Event → List Event
chunks [] es = es
chunks (c ∷ cs) es = chunk c ∷ chunks cs es

abbrev pub advance : Progress → Text → Progress
advance p c = record {
  downloaded = p.downloaded + length c;
  hasher = p.hasher ++ c;
  written = p.written ++ c;
}

append_assoc : (a b c : Text) → (a ++ b) ++ c ≡ a ++ (b ++ c)
append_assoc [] b c = refl
append_assoc (x ∷ a) b c = ap (λ (t : Text). x ∷ t) (append_assoc a b c)

append_nil : (a : Text) → a ++ [] ≡ a
append_nil [] = refl
append_nil (x ∷ a) = ap (λ (t : Text). x ∷ t) (append_nil a)

add_assoc : (a b c : ℕ) → (a + b) + c ≡ a + (b + c)
add_assoc a b c = omega arith

advance-advance : (p : Progress) (a b : Text) → advance (advance p a) b ≡ advance p (a ++ b)
advance-advance p a b = rw (
  append_assoc p.hasher a b,
  append_assoc p.written a b,
  length-append a b,
  add_assoc p.downloaded (length a) (length b),
)

advance_nil : (p : Progress) → advance p [] ≡ p
advance_nil p = rw (append_nil p.hasher, append_nil p.written, plus_zero p.downloaded)
  where
    plus_zero : (n : ℕ) → n + 0 ≡ n
    plus_zero n = omega arith

-- Chunks that fit are all taken.
receive-chunks :
    (size : ℕ) (cs : List Text) (es : List Event) (p : Progress)
    → size ≤ u64_max
    → p.downloaded + length (concat cs) ≤ size
    → receive size (chunks cs es) p ≡ receive size es (advance p (concat cs))
unfolding receive
receive-chunks size [] es p top fits = ap (receive size es) (sym (advance_nil p))
receive-chunks size (c ∷ cs) es p top fits =
    let total : length (c ++ concat cs) ≡ length c + length (concat cs) =
      length-append c (concat cs) in
    let no_wrap : ltb u64_max (p.downloaded + length c) ≡ false = ground (arith, total) in
    let within : ltb size (p.downloaded + length c) ≡ false = ground (arith, total) in
    rw (no_wrap, within)
      (receive-chunks size cs es (advance p c) top (omega (arith, total))
        ∙ ap (receive size es) (advance-advance p c (concat cs)))

-- Nobody cancels.
abbrev pub uncancelled : Caller
uncancelled = record { at_start = false; at_end = false; after_error = false }

abbrev pub partial_content : Text → List Event → Response
partial_content header events = record {
  status = 206;
  content_range = some header;
  content_length = none;
  stream = events;
}

abbrev pub whole_content : List Event → Response
whole_content events = record {
  status = 200;
  content_range = none;
  content_length = none;
  stream = events;
}

module _ (sha256 : Text → Text) (r : RuntimeRelease) where
  -- A package of no more bytes than the release has, and than a `u64` counts.
  finish-whole :
      (files : Files) (p : Progress)
      → files.target ≢ directory
      → p.downloaded ≡ r.size
      → sha256 p.hasher ≡ r.sha256
      → finish sha256 r false files p ≡ (record { partial = absent; target = files.partial }, ok tt)
  unfolding finish rename
  finish-whole files p free counted digest =
      let whole : (p.downloaded == r.size) ≡ true = rw (counted, ==_refl) refl in
      let same : text_eq (sha256 p.hasher) r.sha256 ≡ true =
        (text_eq_iff (sha256 p.hasher) r.sha256).1 digest in
      rw (whole, same) (by_target files.target refl)
    where
      by_target :
          (t : Entry)
          → files.target ≡ t
          → rename (record { partial = files.partial; target = t })
            ≡ (record { partial = absent; target = files.partial }, ok tt)
      by_target directory e = absurd (free e)
      by_target absent e = refl
      by_target symlink e = refl
      by_target (regular c) e = refl

  unfoldable after :
      Files → Entry × Result DownloadError Progress → Files × Result DownloadError (Unit {0})
  unfolding finish
  after files got = elim got.1 [
    | err e ↦ (record files { partial = got.0 }, err e)
    | ok q ↦ finish sha256 r false (record files { partial = got.0 }) q
  ]

  stream_into-chunks :
      (files : Files) (cs : List Text) (p : Progress)
      → r.size ≤ u64_max
      → files.target ≢ directory
      → p.downloaded + length (concat cs) ≡ r.size
      → sha256 (p.hasher ++ concat cs) ≡ r.sha256
      → stream_into sha256 r false (chunks cs []) files p
        ≡ (record { partial = absent; target = regular (p.written ++ concat cs) }, ok tt)
  unfolding stream_into receive after
  stream_into-chunks files cs p top free total digest =
      ap (after files) (receive-chunks r.size cs [] p top (omega (arith, total)))
      ∙ finish-whole (record files { partial = regular (p.written ++ concat cs) })
          (advance p (concat cs)) free total digest

  stream_into-lost :
      (files : Files) (cs : List Text) (p : Progress)
      → r.size ≤ u64_max
      → p.downloaded + length (concat cs) ≤ r.size
      → stream_into sha256 r false (chunks cs (lost ∷ [])) files p
        ≡ (record files { partial = regular (p.written ++ concat cs) }, err broken)
  unfolding stream_into receive after
  stream_into-lost files cs p top fits =
      ap (after files) (receive-chunks r.size cs (lost ∷ []) p top fits)

  -- The way to the stream, from the start and from a partial file.
  from_start :
      (t : Entry) (events : List Event)
      → 1 ≤ r.size
      → download_runtime_artifact_inner sha256 r uncancelled
          (ok (whole_content events))
          (record { partial = absent; target = t })
        ≡ stream_into sha256 r false events
            (record { partial = absent; target = t })
            (record { downloaded = 0; hasher = []; written = [] })
  unfolding download_runtime_artifact_inner
  from_start t events filled =
      let open_file : (0 == r.size) ≡ false = ground arith in
      let below : ltb r.size 0 ≡ false = ground arith in
      rw (open_file, download_runtime_artifact_inner) (rw (below, take_stream))

  from_partial :
      (t : Entry) (before header : Text) (events : List Event)
      → 1 ≤ length before
      → length before < r.size
      → validate_runtime_content_range (some header) (length before) r.size ≡ ok tt
      → download_runtime_artifact_inner sha256 r uncancelled
          (ok (partial_content header events))
          (record { partial = regular before; target = t })
        ≡ stream_into sha256 r false events
            (record { partial = regular before; target = t })
            (record { downloaded = length before; hasher = before; written = before })
  unfolding download_runtime_artifact_inner resumable_runtime_partial is_appended
  from_partial t before header events some_bytes short ranged =
      let within : ltb r.size (length before) ≡ false = ground arith in
      let incomplete_file : (length before == r.size) ≡ false = ground arith in
      let resumed : (length before == 0) ≡ false = ground arith in
      rw (within, resumable_runtime_partial, download_runtime_artifact_inner)
        (rw (incomplete_file, download_runtime_artifact_inner)
          (rw (resumed, ranged, is_appended, answer) (rw (within, take_stream))))

  -- Provided that nobody cancels, that neither response has a Content-Length, that there is no partial
  -- file before, that a `u64` holds the package's size and that the target path is no directory: a first
  -- download whose server breaks off after some but not all bytes leaves exactly these as the partial file
  -- and the target as it was; a second one, answered with the rest under a valid Content-Range, succeeds if
  -- all bytes have the release's SHA-256, and leaves them as the target and no partial file.
  pub download_runtime_artifact-resumes :
      (t : Entry) (xs ys : List Text) (header : Text)
      → r.size ≤ u64_max
      → t ≢ directory
      → 1 ≤ length (concat xs)
      → length (concat xs) < r.size
      → length (concat xs) + length (concat ys) ≡ r.size
      → sha256 (concat xs ++ concat ys) ≡ r.sha256
      → validate_runtime_content_range (some header) (length (concat xs)) r.size ≡ ok tt
      → (download_runtime_artifact sha256 r uncancelled
            (ok (whole_content (chunks xs (lost ∷ []))))
            (record { partial = absent; target = t })
          ≡ (record { partial = regular (concat xs); target = t }, err broken))
        × (download_runtime_artifact sha256 r uncancelled
              (ok (partial_content header (chunks ys [])))
              (record { partial = regular (concat xs); target = t })
            ≡ (record { partial = absent; target = regular (concat xs ++ concat ys) }, ok tt))
  unfolding download_runtime_artifact
  download_runtime_artifact-resumes t xs ys header top free some_bytes short total digest ranged = (
    ap outer (
        from_start t (chunks xs (lost ∷ [])) (omega arith)
        ∙ stream_into-lost (record { partial = absent; target = t }) xs
            (record { downloaded = 0; hasher = []; written = [] }) top (omega arith)),
    ap outer (
        from_partial t (concat xs) header (chunks ys []) some_bytes short ranged
        ∙ stream_into-chunks (record { partial = regular (concat xs); target = t }) ys
            (record { downloaded = length (concat xs); hasher = concat xs; written = concat xs })
            top free total digest),
  )
    where
      outer : Files × Result DownloadError (Unit {0}) → Files × Result DownloadError (Unit {0})
      outer got = elim got.1 [ ok _ ↦ (got.0, ok tt) | err e ↦ (got.0, err e) ]
