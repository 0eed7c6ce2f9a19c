-- ===== src/Examples/Streaming.antt =====
-- Keyframes, the segment cache and the names of segments.
use mathlib.Core.List.{Memᴰ}
use vaultflix.Base.{
  ℕ, suc, has_prefix, is_empty, Str, codes, eq_str, eq_str_iff, true, false, Option, none, some,
  List, [], ◌∷◌, ◌≡◌, ◌≢◌, get_elem?, length, ap, refl, arith,
}
use vaultflix.Base.Int.{ℤ, pos}
use vaultflix.Errors.{Sentinel, Error, is, Result, ok, err, wrapping}
use vaultflix.Model.{PlayMode}
use vaultflix.Playback.{is_legacy}
use vaultflix.Playback.Hls.{Services, boundaries, manifest, segment}
use vaultflix.Playback.Hls.Served.{segment-manifest}
use vaultflix.Streaming.Segments.{SegmentBoundary, group_segments, default_segment_target}
use vaultflix.Streaming.Segments.Tiling.{Tiles, group_segments-Tiles}
use vaultflix.Streaming.Names.{segment_name, parse_segment_name}
use vaultflix.Streaming.Names.RoundTrip.{parse-segment_name}
use vaultflix.Streaming.Manifest.{build_vod_manifest}
use vaultflix.Streaming.Manifest.Listed.{uris, names, uris-build_vod_manifest}
use vaultflix.Streaming.Cache.{
  VideoState, SegmentFile, Cache, segment_key, has_inflight, evict, sweep,
}
use vaultflix.Streaming.Cache.Eviction.{Settled, evict-Settled}
use vaultflix.Streaming.Cache.Kept.{Holds, evict-Holds}
use vaultflix.Streaming.Cache.Claims.{Flight, Move, OneEach, Move-OneEach}
use vaultflix.Keyframes.{Keyframes, lookup_or_probe, build_index, finish_probe}
use vaultflix.Keyframes.Once.{System, started, Distinct, Run, init, looked_up, goroutines-Distinct}
use vaultflix.Keyframes.Cooldown.{cooling, lookup-finish_probe}

abbrev keyframes : List ℤ
keyframes = pos 0 ∷ pos 4_000_000 ∷ pos 8_000_000 ∷ []

abbrev total : ℤ
total = pos 20_000_000

group_segments-Tiles_example :
    (group_segments keyframes total default_segment_target ≢ [])
    × Tiles keyframes default_segment_target
        (pos 0)
        (group_segments keyframes total default_segment_target)
        total
group_segments-Tiles_example =
    group_segments-Tiles keyframes total default_segment_target refl
      (omega arith, (omega arith, (omega arith, tt))) (omega arith)

parse-segment_name_example : parse_segment_name (segment_name 42) ≡ some 42
parse-segment_name_example = parse-segment_name 42 (omega arith)

abbrev busy_video : VideoState
busy_video = record { id = codes "v1"; dir = codes "v1"; size_bytes = 60; last_access = 1 }

abbrev idle_video : VideoState
idle_video = record { id = codes "v2"; dir = codes "v2"; size_bytes = 50; last_access = 2 }

abbrev file : SegmentFile
file = record { dir = codes "v1"; name = codes "seg00000.ts"; bytes = 60 }

abbrev cache : Cache
cache = record {
  idle_timeout = 10;
  max_bytes = 100;
  videos = busy_video ∷ idle_video ∷ [];
  inflight = segment_key (codes "v1") (codes "seg00001.ts") ∷ [];
  files = file ∷ [];
}

evict-Settled_example : Settled (codes "v3") (evict (λ _. true) (codes "v3") cache)
evict-Settled_example = evict-Settled (λ _. true) (codes "v3") cache (omega arith)

apart : (s t : Str) → eq_str s t ≡ false → s ≢ t
apart s t h q = ground (arith, (eq_str_iff s t).1 q)

held : Holds busy_video file cache
unfolding eq_str
held = record {
  account = Memᴰ.head refl;
  file = Memᴰ.head refl;
  own_dir = (λ n. absurd (n refl), (λ _. apart (codes "v2") (codes "v1") refl, tt));
}

evict-Holds_example : Holds busy_video file (evict (λ _. true) (codes "v3") cache)
unfolding has_inflight segment_key eq_str has_prefix
evict-Holds_example = evict-Holds (λ _. true) busy_video file (codes "v3") cache refl held

abbrev upsert : Str → List SegmentBoundary → ℕ → ℕ × Option Error
upsert id segs d = (suc d, none)

abbrev no_keyframes : Keyframes
no_keyframes = record { inflight = []; failed_at = [] }

abbrev missing : Error
missing = Error.sentinel Sentinel.not_found

abbrev first_lookup : System
first_lookup = started (codes "v1") (lookup_or_probe 5 (codes "v1") (err missing) no_keyframes).1 []

abbrev run : Run upsert first_lookup
run = looked_up init 5 (codes "v1") (err missing)

goroutines-Distinct_example :
    (first_lookup.goroutines ≡ first_lookup.service.inflight) × Distinct first_lookup.goroutines
goroutines-Distinct_example = goroutines-Distinct upsert first_lookup run

abbrev broken : Result (List ℤ × ℤ)
broken = err Error.plain

lookup-finish_probe_example :
    lookup_or_probe 9
      (codes "v1")
      (err missing)
      (finish_probe upsert 7 (codes "v1") broken no_keyframes 0).1
    ≡ cooling 7 9 (codes "v1") (finish_probe upsert 7 (codes "v1") broken no_keyframes 0).1
unfolding build_index is
lookup-finish_probe_example =
    lookup-finish_probe upsert 7 9 (codes "v1") broken no_keyframes 0
      (Error.wrap_both (Error.sentinel Sentinel.unindexable) Error.plain) missing refl refl refl
      refl

abbrev table : List SegmentBoundary
table =
    record { start = pos 0; duration = pos 6_500_000 }
    ∷ record { start = pos 6_500_000; duration = pos 3_000_000 }
    ∷ []

abbrev services : Services
services = record {
  resolve_playback = λ _. ok (record {
    path = codes "/mnt/host/d/a.mkv";
    legacy_object_key = [];
    play_mode = PlayMode.remux;
    mime_type = codes "video/x-matroska";
  });
  lookup_or_probe = λ _ _. ok table;
  ensure_segment = λ _ _ _ _. ok (codes "/cache/v1/seg00000.ts");
}

segment-manifest_example :
    (length (uris (build_vod_manifest table)) ≡ length table)
    × ((seg : SegmentBoundary) × (get_elem? table 1 ≡ some seg)
        × (segment services (codes "v1") (segment_name 1)
            ≡ wrapping (services.ensure_segment (codes "v1") (codes "/mnt/host/d/a.mkv") 1 seg)))
unfolding boundaries is_legacy is_empty manifest names
segment-manifest_example =
    segment-manifest services (codes "v1") (codes "/mnt/host/d/a.mkv") (build_vod_manifest table)
      (segment_name 1) table 1 refl refl (ap (λ l. get_elem? l 1) (uris-build_vod_manifest table))
      (omega arith)

abbrev empty_flight : Flight
empty_flight = record { cache = record cache { inflight = [] }; owners = [] }

Move-OneEach_example :
    OneEach (record empty_flight { cache = sweep (λ _. true) 50 empty_flight.cache })
Move-OneEach_example =
    Move-OneEach (Move.sweeps empty_flight (λ _. true) 50)
      (record { claimed = refl; distinct = tt })
