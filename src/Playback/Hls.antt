-- ===== src/Playback/Hls.antt =====
-- `HLSService` (internal/service/hls_service.go). The three interfaces that it calls are arguments.
pub mod Served
use vaultflix.Base.{ℕ, Str, codes, Bool, not, if◌then◌else◌, Option, none, some, List, get_elem?}
use vaultflix.Errors.{Sentinel, Error, Result, ok, err, ◌>>=◌, wrapping}
use vaultflix.Model.{PlayMode}
use vaultflix.Streaming.Segments.{SegmentBoundary}
use vaultflix.Streaming.Names.{parse_segment_name}
use vaultflix.Streaming.Manifest.{build_vod_manifest}
use vaultflix.Playback.{PlaybackSource, is_legacy}

abbrev is_remux : PlayMode → Bool
is_remux PlayMode.remux = Bool.true
is_remux _ = Bool.false

-- `playbackResolver`, `segmentIndex` and `segmentStore`
pub record Services : Type 0 where
  pub resolve_playback : Str → Result PlaybackSource
  pub lookup_or_probe : Str → Str → Result (List SegmentBoundary)
  pub ensure_segment : Str → Str → ℕ → SegmentBoundary → Result Str

unfoldable pub boundaries : Services → Str → Result (Str × List SegmentBoundary)
unfolding is_legacy
boundaries s video_id = do
  src ← wrapping (s.resolve_playback video_id)
  if is_legacy src
      then err (Error.wrap (Error.sentinel Sentinel.not_found))
      else if not (is_remux src.play_mode)
      then err (Error.wrap (Error.sentinel Sentinel.not_remux))
      else do segs ← wrapping (s.lookup_or_probe video_id src.path); ok (src.path, segs)

unfoldable pub manifest : Services → Str → Result Str
manifest s video_id = do (_, segs) ← wrapping (boundaries s video_id); ok (build_vod_manifest segs)

unfoldable pub segment : Services → Str → Str → Result Str
segment s video_id name = elim (parse_segment_name name) [
  | none ↦ err (Error.invalid_param (codes "invalid segment name"))
  | some i ↦ do
    (input_path, segs) ← wrapping (boundaries s video_id)
    elim (get_elem? segs i) [
      | none ↦ err (Error.wrap (Error.sentinel Sentinel.not_found))
      | some seg ↦ wrapping (s.ensure_segment video_id input_path i seg)
    ]
]
