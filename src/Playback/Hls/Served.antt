-- ===== src/Playback/Hls/Served.antt =====
-- The manifest and the segments of `HLSService` (internal/service/hls_service.go), side by side.
use vaultflix.Base.{
  ℕ, ◌<◌, Str, none, some, List, [], ◌∷◌, length, get_elem?, zero, suc, ◌≡◌, arith, refl, ap, sym,
  ◌∙◌,
}
use vaultflix.Errors.{Sentinel, Error, ok, err, wrapping}
use vaultflix.Streaming.Segments.{SegmentBoundary}
use vaultflix.Streaming.Names.{segment_name}
use vaultflix.Streaming.Names.RoundTrip.{parse-segment_name}
use vaultflix.Streaming.Manifest.{build_vod_manifest}
use vaultflix.Streaming.Manifest.Listed.{
  uris, names, length-names, get_elem-names, uris-build_vod_manifest,
}
use vaultflix.Playback.Hls.{Services, boundaries, manifest, segment}

get_elem-below :
    (segs : List SegmentBoundary) (i : ℕ)
    → i < length segs
    → (seg : SegmentBoundary) × (get_elem? segs i ≡ some seg)
get_elem-below [] i h = absurd (omega arith)
get_elem-below (s ∷ segs) zero h = (s, refl)
get_elem-below (s ∷ segs) (suc i) h = get_elem-below segs i (omega arith)

ensured :
    (s : Services) (video_id path : Str) (segs : List SegmentBoundary) (i : ℕ)
    (seg : SegmentBoundary)
    → get_elem? segs i ≡ some seg
    → elim (get_elem? segs i) [
      | none ↦ err (Error.wrap (Error.sentinel Sentinel.not_found))
      | some seg ↦ wrapping (s.ensure_segment video_id path i seg)
    ]
      ≡ wrapping (s.ensure_segment video_id path i seg)
ensured s video_id path segs i seg e =
    ap
      (λ o. elim o [
        | none ↦ err (Error.wrap (Error.sentinel Sentinel.not_found))
        | some seg ↦ wrapping (s.ensure_segment video_id path i seg)
      ])
      e

listed :
    (s : Services) (video_id path text : Str) (segs : List SegmentBoundary)
    → boundaries s video_id ≡ ok (path, segs)
    → manifest s video_id ≡ ok text
    → text ≡ build_vod_manifest segs
unfolding manifest
listed s video_id path text segs h m = cc (rw (h, manifest) at m)

-- A player reads one URI for each boundary out of the text that `Manifest` answers; and the request
-- for the i-th of them, below 100,000, is the cut of the i-th boundary, never a refusal of the name
-- or of the index.
pub segment-manifest :
    (s : Services) (video_id path text name : Str) (segs : List SegmentBoundary) (i : ℕ)
    → boundaries s video_id ≡ ok (path, segs)
    → manifest s video_id ≡ ok text
    → get_elem? (uris text) i ≡ some name
    → i < 100_000
    → (length (uris text) ≡ length segs)
      × ((seg : SegmentBoundary) × (get_elem? segs i ≡ some seg)
          × (segment s video_id name ≡ wrapping (s.ensure_segment video_id path i seg)))
unfolding segment
segment-manifest s video_id path text name segs i h m u small =
    let t = listed s video_id path text segs h m in
    let named : uris text ≡ names 0 (length segs) = ap uris t ∙ uris-build_vod_manifest segs in
    let (below, e) =
      get_elem-names 0 (length segs) i name (ap (λ l. get_elem? l i) (sym named) ∙ u) in
    let known : name ≡ segment_name i = e ∙ ap segment_name (omega arith) in
    let (seg, found) = get_elem-below segs i below in
    (
      ap length named ∙ length-names 0 (length segs),
      (
        seg,
        found,
        rw (known, segment, parse-segment_name i small, h)
            (ensured s video_id path segs i seg found),
      ),
    )
