-- ===== src/Streaming/Segments.antt =====
-- `GroupSegments` (internal/streaming/keyframe_probe.go). A time is an integer, in microseconds:
-- ffprobe prints six decimals, and the rounding of the source's float64 sums is not modelled.
pub mod Boundaries
pub mod Lengths
pub mod Tiling
use vaultflix.Base.{ℕ, Bool, true, false, not, ◌&&◌, ◌||◌, if◌then◌else◌, List, [], ◌∷◌, ◌++◌}
use vaultflix.Base.Int.{ℤ, pos, ◌-ℤ◌, ltb_ℤ}

pub record SegmentBoundary : Type 0 where
  pub start : ℤ
  pub duration : ℤ

abbrev pub second : ℤ
second = pos 1_000_000

-- `DefaultSegmentTarget`
abbrev pub default_segment_target : ℤ
default_segment_target = pos 6_000_000

abbrev pub is_nil {ℓ} : {A : Type ℓ} → List A → Bool
is_nil [] = true
is_nil (_ ∷ _) = false

-- `last := &segs[len(segs)-1]; last.Duration = total - last.Start`
unfoldable pub stretch_last : ℤ → List SegmentBoundary → List SegmentBoundary
stretch_last total [] = []
stretch_last total (s ∷ []) = record s { duration = total -ℤ s.start } ∷ []
stretch_last total (s ∷ t ∷ ss) = s ∷ stretch_last total (t ∷ ss)

-- The loop over the keyframes: the segments so far, and `cur`.
unfoldable pub cut : List ℤ → ℤ → List SegmentBoundary → ℤ → List SegmentBoundary × ℤ
cut [] target segs cur = (segs, cur)
cut (pts ∷ kf) target segs cur = elim (ltb_ℤ (pts -ℤ cur) target) [
  | true ↦ cut kf target segs cur
  | false ↦ cut kf target (segs ++ (record { start = cur; duration = pts -ℤ cur } ∷ [])) pts
]

close_tail : ℤ → List SegmentBoundary → ℤ → List SegmentBoundary
unfolding stretch_last
close_tail total segs cur =
    if not (ltb_ℤ (total -ℤ cur) second) || is_nil segs
    then segs ++ (record { start = cur; duration = total -ℤ cur } ∷ [])
    else stretch_last total segs

unfoldable pub group_segments : List ℤ → ℤ → ℤ → List SegmentBoundary
unfolding cut close_tail
group_segments kf total target =
    if not (ltb_ℤ (pos 0) total)
    then []
    else let (segs, cur) = cut kf target [] (pos 0) in close_tail total segs cur
