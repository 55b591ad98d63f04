-- ===== src/Updates/Segments.antt =====
-- The byte ranges of a segmented download: crates/updater/src/windows_download.rs. The file name and the
-- parent directory of the partial path, and the join of the two, are arguments.
pub mod Tiling
use fabdev.Prelude.{
  ◌||◌, ℕ, zero, suc, ◌+◌, ◌-◌, min, Bool, false, not, Option, none, some, List, [], ◌∷◌, ◌++◌, ltb,
  ◌==◌, if◌then◌else◌, saturating_add, u64_max, retain, Text, codes, Result, ◌>>=◌, ◌>>◌, bail_if,
  context, to_string, ok,
}

pub record DownloadSegment : Type 0 where
  pub start : ℕ
  pub end : ℕ
  pub path : Text

pub data SegmentError : Type 0 where
  invalid_size no_file_name no_parent : SegmentError

abbrev pub default_segment_size : ℕ
default_segment_size = 8388608

abbrev pub length_of : DownloadSegment → ℕ
length_of s = s.end - s.start + 1

-- `{index:04}`
unfoldable pub padded : ℕ → Text
unfolding to_string
padded index =
    let digits = to_string index in
    let zeros : Text =
      if ltb index 10
      then codes "000"
      else if ltb index 100
      then codes "00"
      else if ltb index 1000
      then codes "0"
      else [] in
    zeros ++ digits

unfoldable pub segment_end : ℕ → ℕ → ℕ → ℕ
segment_end size segment_size start =
    min (saturating_add u64_max start (segment_size - 1)) (size - 1)

-- The loop of `build_segments`; `fuel` bounds its rounds.
unfoldable pub segments_from : (ℕ → Text) → ℕ → ℕ → ℕ → ℕ → ℕ → List DownloadSegment
unfolding segment_end
segments_from name size segment_size zero start index = []
segments_from name size segment_size (suc fuel) start index =
    let end = segment_end size segment_size start in
    let rest = segments_from name size segment_size fuel (end + 1) (index + 1) in
    if ltb start size then record { start = start; end = end; path = name index } ∷ rest else []

unfoldable pub segment_path : (Text → Text → Text) → Text → Text → ℕ → Text
unfolding padded
segment_path join_path directory file index =
    join_path directory (file ++ (codes "." ++ (padded index ++ codes ".resume")))

-- A round moves the start by one byte or more, so `size` rounds are enough.
unfoldable pub build_segments :
    (Text → Text → Text)
    → Option Text
    → Option Text
    → ℕ
    → ℕ
    → Result SegmentError (List DownloadSegment)
unfolding segments_from segment_path
build_segments join_path file_name parent size segment_size = do
  file ← context file_name no_file_name
  directory ← context parent no_parent
  ok (segments_from (segment_path join_path directory file) size segment_size size 0 0)

-- The head of `download_windows_artifact_with_segment_size`.
unfoldable pub plan_segments :
    (Text → Text → Text)
    → Option Text
    → Option Text
    → ℕ
    → ℕ
    → Result SegmentError (List DownloadSegment)
unfolding build_segments
plan_segments join_path file_name parent size segment_size =
    bail_if (size == 0 || segment_size == 0) invalid_size
    >> build_segments join_path file_name parent size segment_size

-- The part of `download_windows_artifact` that decides which segments are kept: `found` is the length of
-- a segment's file, `none` when there is none.
abbrev is_complete : (DownloadSegment → Option ℕ) → DownloadSegment → Bool
is_complete found s = elim (found s) [ none ↦ false | some n ↦ n == length_of s ]

unfoldable pub resumed : (DownloadSegment → Option ℕ) → List DownloadSegment → ℕ
resumed found [] = 0
resumed found (s ∷ ss) = (if is_complete found s then length_of s else 0) + resumed found ss

abbrev pub is_pending : (DownloadSegment → Option ℕ) → DownloadSegment → Bool
is_pending found s = not (is_complete found s)

unfoldable pub pending : (DownloadSegment → Option ℕ) → List DownloadSegment → List DownloadSegment
pending found segments = retain (is_pending found) segments

-- `downloaded` once each of the given segments has been downloaded.
unfoldable pub downloaded : ℕ → List DownloadSegment → ℕ
downloaded before [] = before
downloaded before (s ∷ ss) = downloaded (before + length_of s) ss
