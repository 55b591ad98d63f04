-- ===== src/Updates/Segments/Tiling.antt =====
-- The segments tile the artifact: crates/updater/src/windows_download.rs.
use fabdev.Prelude.{
  ℕ, zero, suc, ◌+◌, ◌-◌, ◌≤◌, ◌<◌, ◌≡◌, refl, subst, inl, inr, Option, none, some, List, [], ◌∷◌,
  arith, ltb, Bool-cases, u64_max, Text, ok,
}
use fabdev.Updates.Segments.{
  DownloadSegment, length_of, segment_path, segment_end, plan_segments, segments_from,
  build_segments, resumed, pending, downloaded,
}

-- The ranges follow each other without a gap from `start` up to `size`, and none is empty or longer than
-- `segment_size`.
pub Tiles : ℕ → ℕ → ℕ → List DownloadSegment → Type 0
Tiles segment_size start size [] = start ≡ size
Tiles segment_size start size (s ∷ ss) =
    (s.start ≡ start)
    × (s.start ≤ s.end)
    × (length_of s ≤ segment_size)
    × Tiles segment_size (s.end + 1) size ss

from-Tiles :
    (name : ℕ → Text) (size segment_size fuel start index : ℕ)
    → size ≤ u64_max
    → 1 ≤ segment_size
    → start ≤ size
    → size ≤ start + fuel
    → Tiles segment_size start size (segments_from name size segment_size fuel start index)
unfolding segments_from segment_end Tiles
from-Tiles name size segment_size zero start index bound one le enough = omega (arith, le, enough)
from-Tiles name size segment_size (suc fuel) start index bound one le enough =
    elim (Bool-cases (ltb start size)) [
      | inr done ↦ rw done (ground arith)
      | inl more ↦
          let lt : start < size = ground arith in
          let end = segment_end size segment_size start in
          let from_start : start ≤ end = ground arith in
          let to_size : end + 1 ≤ size = ground arith in
          let short : end - start + 1 ≤ segment_size = ground arith in
          rw more (
            refl,
            from_start,
            short,
            from-Tiles name size segment_size fuel (end + 1) (index + 1) bound one to_size
                (omega (arith, from_start, enough)),
          )
    ]

-- For a size that fits a word, the segments that a download plans cover the bytes from 0 to the size
-- without gap or overlap, none empty or longer than the segment size.
pub plan_segments-Tiles :
    (join_path : Text → Text → Text) (file_name parent : Option Text) (size segment_size : ℕ)
    (segments : List DownloadSegment)
    → size ≤ u64_max
    → plan_segments join_path file_name parent size segment_size ≡ ok segments
    → Tiles segment_size 0 size segments
unfolding plan_segments build_segments
plan_segments-Tiles join_path none parent size segment_size segments bound h = absurd (ground arith)
plan_segments-Tiles join_path (some file) none size segment_size segments bound h =
    absurd (ground arith)
plan_segments-Tiles join_path (some file) (some directory) size segment_size segments bound h =
    let name = segment_path join_path directory file in
    let one : 1 ≤ segment_size = ground arith in
    let same : segments_from name size segment_size size 0 0 ≡ segments = ground arith in
    subst (Tiles segment_size 0 size) same
      (from-Tiles name size segment_size size 0 0 bound one (omega arith) (omega arith))

total : (before : ℕ) (ss : List DownloadSegment) → downloaded before ss ≡ before + downloaded 0 ss
unfolding downloaded
total before [] = omega arith
total before (s ∷ ss) = omega (arith, total (before + length_of s) ss, total (0 + length_of s) ss)

all_bytes :
    (segment_size start size : ℕ) (ss : List DownloadSegment)
    → Tiles segment_size start size ss
    → start + downloaded 0 ss ≡ size
unfolding downloaded Tiles
all_bytes segment_size start size [] h = omega (arith, h)
all_bytes segment_size start size (s ∷ ss) h =
    omega
      (arith, h.0, h.1, all_bytes segment_size (s.end + 1) size ss h.3, total (0 + length_of s) ss)

resumed_and_pending :
    (found : DownloadSegment → Option ℕ) (ss : List DownloadSegment)
    → resumed found ss + downloaded 0 (pending found ss) ≡ downloaded 0 ss
unfolding resumed pending downloaded
resumed_and_pending found [] = refl
resumed_and_pending found (s ∷ ss) = ground (
  arith,
  resumed_and_pending found ss,
  total (0 + length_of s) ss,
  total (0 + length_of s) (pending found ss),
)

-- For a size that fits a word and whichever segment files an earlier run left, keeping those of the right length and downloading the rest
-- counts exactly the artifact's size, so the final test on the count is passed.
pub downloaded-plan_segments :
    (join_path : Text → Text → Text) (file_name parent : Option Text) (size segment_size : ℕ)
    (segments : List DownloadSegment) (found : DownloadSegment → Option ℕ)
    → size ≤ u64_max
    → plan_segments join_path file_name parent size segment_size ≡ ok segments
    → downloaded (resumed found segments) (pending found segments) ≡ size
downloaded-plan_segments join_path file_name parent size segment_size segments found bound h =
    omega (
      arith,
      total (resumed found segments) (pending found segments),
      resumed_and_pending found segments,
      all_bytes segment_size 0 size segments
          (plan_segments-Tiles join_path file_name parent size segment_size segments bound h),
    )
