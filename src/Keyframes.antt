-- ===== src/Keyframes.antt =====
-- `KeyframeService` (internal/service/keyframe_service.go): who builds a Keyframe Index, and when.
-- The repository, over a database `D`, and ffprobe are arguments; a time is a number of
-- nanoseconds.
pub mod Once
pub mod Cooldown
use vaultflix.Base.{
  ℕ, ◌-◌, ◌*◌, Str, eq_str, Bool, true, false, ◌&&◌, not, ltb, if◌then◌else◌, Option, none, some,
  List, [], ◌∷◌,
}
use vaultflix.Base.Int.{ℤ}
use vaultflix.Errors.{Sentinel, Error, is, Result, ok, err, ◌>>=◌}
use vaultflix.Model.{PlayMode, Video}
use vaultflix.Playback.{video_play_mode}
use vaultflix.Streaming.Segments.{SegmentBoundary, default_segment_target, is_nil, group_segments}

-- The two maps of the service.
pub record Keyframes : Type 0 where
  pub inflight : List Str
  pub failed_at : List (Str × ℕ)

-- `probeFailureCooldown`, 10 minutes
abbrev pub probe_failure_cooldown : ℕ
probe_failure_cooldown = 600_000_000_000

unfoldable pub is_inflight : Str → List Str → Bool
unfolding eq_str
is_inflight id [] = false
is_inflight id (x ∷ xs) = let rest = is_inflight id xs in if eq_str x id then true else rest

-- `delete(s.inflight, videoID)`
unfoldable pub forget : Str → List Str → List Str
unfolding eq_str
forget id [] = []
forget id (x ∷ xs) = let rest = forget id xs in if eq_str x id then rest else x ∷ rest

-- `s.failedAt[videoID]`
unfoldable pub failure : Str → List (Str × ℕ) → Option ℕ
unfolding eq_str
failure id [] = none
failure id ((x, at) ∷ xs) = let rest = failure id xs in if eq_str x id then some at else rest

-- `delete(s.failedAt, videoID)`
unfoldable pub clear_failure : Str → List (Str × ℕ) → List (Str × ℕ)
unfolding eq_str
clear_failure id [] = []
clear_failure id ((x, at) ∷ xs) =
    let rest = clear_failure id xs in if eq_str x id then rest else (x, at) ∷ rest

unfoldable pub failed_recently : ℕ → Str → Keyframes → Bool
failed_recently now id k = elim (failure id k.failed_at) [
  | none ↦ false
  | some at ↦ ltb (now - at) probe_failure_cooldown
]

-- `triggerProbe`: true when it starts the goroutine.
unfoldable pub trigger_probe : Str → Keyframes → Keyframes × Bool
trigger_probe id k =
    if is_inflight id k.inflight
    then (k, false)
    else (record k { inflight = id ∷ k.inflight }, true)

-- `LookupOrProbe`, of what the repository has for the Video.
unfoldable pub lookup_or_probe :
    ℕ
    → Str
    → Result (List SegmentBoundary)
    → Keyframes
    → Result (List SegmentBoundary) × (Keyframes × Bool)
lookup_or_probe now id stored k = elim stored [
  | ok segs ↦ (ok segs, (k, false))
  | err e ↦
      if is Sentinel.not_found e
      then if failed_recently now id k
        then (err (Error.wrap (Error.sentinel Sentinel.keyframe_index_failed)), (k, false))
        else (err (Error.wrap (Error.sentinel Sentinel.stream_preparing)), trigger_probe id k)
      else (err (Error.wrap e), (k, false))
]

unfoldable pub uses_keyframe_index : Video → Bool
uses_keyframe_index v = elim (video_play_mode v) [ PlayMode.remux ↦ true | _ ↦ false ]

module _ {D : Type 0} where
  -- `buildIndex`; the probe gives the keyframes and the length.
  unfoldable pub build_index :
      (Str → List SegmentBoundary → D → D × Option Error)
      → Str
      → Result (List ℤ × ℤ)
      → D
      → D × Option Error
  build_index upsert id probed d = elim probed [
    | err e ↦ (d, some (Error.wrap_both (Error.sentinel Sentinel.unindexable) e))
    | ok (kf, total) ↦
        let segs = group_segments kf total default_segment_target in
        if is_nil segs
        then (d, some (Error.wrap (Error.sentinel Sentinel.unindexable)))
        else let (stored, failed) = upsert id segs d in
          (stored, elim failed [ none ↦ none | some e ↦ some (Error.wrap e) ])
  ]

-- The deferred critical section of the goroutine.
unfoldable pub end_probe : Str → Keyframes → Keyframes
end_probe id k = record k { inflight = forget id k.inflight }

-- What `indexFile` records of the outcome.
unfoldable pub record_outcome : ℕ → Str → Option Error → Keyframes → Keyframes
record_outcome now id none k = record k { failed_at = clear_failure id k.failed_at }
record_outcome now id (some e) k =
    if is Sentinel.unindexable e && not (is Sentinel.canceled e)
    then record k { failed_at = (id, now) ∷ clear_failure id k.failed_at }
    else k

module _ {D : Type 0} where
  unfoldable pub index_file :
      (Str → List SegmentBoundary → D → D × Option Error)
      → ℕ
      → Str
      → Result (List ℤ × ℤ)
      → Keyframes
      → D
      → D × (Keyframes × Option Error)
  index_file upsert now id probed k d =
      let (stored, failed) = build_index upsert id probed d in
      (stored, (record_outcome now id failed k, failed))

  -- `EnsureIndex`
  unfoldable pub ensure_index :
      (Str → List SegmentBoundary → D → D × Option Error)
      → ℕ
      → Video
      → Result (List ℤ × ℤ)
      → Keyframes
      → D
      → D × (Keyframes × Option Error)
  ensure_index upsert now v probed k d =
      if not (uses_keyframe_index v)
      then (d, (k, none))
      else let (stored, after) = index_file upsert now v.id probed k d in
        (stored, (after.0, elim after.1 [ none ↦ none | some e ↦ some (Error.wrap e) ]))

  -- The goroutine of `triggerProbe`, once ffprobe has answered, with nothing between its two
  -- critical sections.
  unfoldable pub finish_probe :
      (Str → List SegmentBoundary → D → D × Option Error)
      → ℕ
      → Str
      → Result (List ℤ × ℤ)
      → Keyframes
      → D
      → D × Keyframes
  finish_probe upsert now id probed k d =
      let (stored, after) = index_file upsert now id probed k d in (stored, end_probe id after.0)
