-- ===== src/Streaming/Manifest.antt =====
-- `BuildVODManifest` (internal/streaming/manifest.go).
pub mod Target
pub mod Listed
use vaultflix.Base.{
  ℕ, zero, suc, ◌+◌, ◌*◌, ◌/◌, ◌%◌, ◌^◌, Str, codes, is_empty, Bool, true, false, ltb,
  if◌then◌else◌, List, [], ◌∷◌, ◌++◌, All, ◌≡◌, ◌≤◌, Bool-cases, inl, inr, arith, ◌==◌,
}
use vaultflix.Base.Int.{ℤ, pos, negsuc, ltb_ℤ, ◌≤ℤ◌, int_laws}
use vaultflix.Streaming.Segments.{SegmentBoundary}
use vaultflix.Base.Text.{itoa}
use vaultflix.Streaming.Decimal.{format_seconds}
use vaultflix.Streaming.Names.{segment_name}

-- `maxDur` after the loop, which starts from 0
unfoldable pub max_duration : ℤ → List SegmentBoundary → ℤ
max_duration m [] = m
max_duration m (s ∷ segs) = max_duration (if ltb_ℤ m s.duration then s.duration else m) segs

-- `math.Ceil`, in seconds; `maxDur` is never below 0.
unfoldable pub ceil : ℤ → ℕ
ceil (pos n) = (n + 999_999) / 1_000_000
ceil (negsuc n) = 0

-- The loop over the segments from the `i`-th on, before the text behind them.
unfoldable pub entries : ℕ → List SegmentBoundary → Str → Str
unfolding format_seconds segment_name
entries i [] tail = tail
entries i (s ∷ segs) tail =
    (codes "#EXTINF:" ++ (format_seconds s.duration ++ codes ","))
    ++ 10 ∷ (segment_name i ++ 10 ∷ entries (suc i) segs tail)

unfoldable pub target_duration : List SegmentBoundary → ℕ
target_duration segs = ceil (max_duration (pos 0) segs)

unfoldable pub build_vod_manifest : List SegmentBoundary → Str
unfolding itoa target_duration entries
build_vod_manifest segs =
    codes "#EXTM3U"
    ++ 10
      ∷ (codes "#EXT-X-VERSION:3"
          ++ 10
            ∷ (codes "#EXT-X-PLAYLIST-TYPE:VOD"
                ++ 10
                  ∷ ((codes "#EXT-X-TARGETDURATION:" ++ itoa (target_duration segs))
                      ++ 10
                        ∷ (codes "#EXT-X-MEDIA-SEQUENCE:0"
                            ++ 10 ∷ entries 0 segs (codes "#EXT-X-ENDLIST" ++ 10 ∷ [])))))
