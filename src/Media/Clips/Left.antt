-- ===== src/Media/Clips/Left.antt =====
-- Which temp files are left behind.
use vaultflix.Media.Clips.Temps.{
  IsFiles, mem, Same, Created, LeavesOnly, Holds, Holds-nil, Holds-keep, Holds-create, Same-refl,
  Same-trans, left_err, left_ok,
}
use vaultflix.Base.{
  ℕ, suc, ◌*◌, Str, codes, eq_str_iff, Bool, true, false, ◌&&◌, not, ltb, if◌then◌else◌, Option,
  none, some, List, [], ◌∷◌, ◌++◌, ◌≡◌, inl, inr, refl, arith, ◌∙◌, Option-cases, Bool-cases,
}
use vaultflix.Base.Text.{itoa}
use vaultflix.Errors.{Error, ok, err, Result-cases, wrapped_write}
use vaultflix.Model.{MediaFile}
use vaultflix.Media.{Processor, at_second, make_thumbnail, make_preview}
use vaultflix.Media.Clips.{
  Files, segment_args, concat_args, full_args, kept_or_removed, extract_frame, run_segment_ffmpeg,
  extract_preview_segment, segment_has_video_bytes, segment_loop, write_lines, write_concat_list,
  remove_each, concat_segments, transcode_preview_segments, transcode_preview_full,
  generate_preview_clip, ffmpeg_tool, finished, preview_segment_timestamp_ratios,
  preview_single_clip_max_secs,
}

module _ {D : Type 0} {f : Files D} {live : D → Str → Bool} (laws : IsFiles f live) where
  create-fresh :
      (pattern p : Str) (d : D)
      → (f.create_temp pattern d).1 ≡ ok p
      → Created live p d (f.create_temp pattern d).0
  unfolding Created
  create-fresh pattern p d h = (laws.fresh pattern p d h, λ q. laws.created pattern p q d h)

  create-failed :
      (pattern : Str) (e : Error) (d : D)
      → (f.create_temp pattern d).1 ≡ err e
      → Same live d (f.create_temp pattern d).0
  unfolding Same
  create-failed pattern e d h q = laws.not_created pattern q e d h

  close-Same : (p : Str) (d : D) → Same live d (f.close_temp p d).0
  unfolding Same
  close-Same p d q = laws.closed p q d

  write-Same : (p text : Str) (d : D) → Same live d (f.write p text d).0
  unfolding Same
  write-Same p text d q = laws.written p text q d

  run-Same : (args : List Str) (d : D) → Same live d (f.run_ffmpeg args d).0
  unfolding Same
  run-Same args d q = laws.ran args q d

  -- a file that was made and removed
  remove-Created : (p : Str) (d e : D) → Created live p d e → Same live d (f.remove p e)
  unfolding Created Same
  remove-Created p d e (n, c) q = ground (arith, laws.removed p q e, c q, n, eq_str_iff p q)

  Created-keep : (p : Str) (d e k : D) → Created live p d e → Same live e k → Created live p d k
  unfolding Created Same
  Created-keep p d e k (n, c) s = (n, λ q. s q ∙ c q)

  kept-LeavesOnly :
      (p : Str) (d : D) (r : D × Option Error)
      → Created live p d r.0
      → LeavesOnly live d (kept_or_removed f p r)
  unfolding kept_or_removed
  kept-LeavesOnly p d (e, none) c = c
  kept-LeavesOnly p d (e, some x) c = remove-Created p d e c

  extract_frame-LeavesOnly :
      (path : Str) (at : ℕ) (d : D) → LeavesOnly live d (extract_frame f path at d)
  unfolding extract_frame
  extract_frame-LeavesOnly path at d =
      elim (Result-cases (f.create_temp (codes "vaultflix-thumb-*.jpg") d).1) [
        | inl (e, r) ↦ rw (r, extract_frame) (create-failed _ e d r)
        | inr (p, r) ↦
            let made = (f.create_temp (codes "vaultflix-thumb-*.jpg") d).0 in
            let c =
              Created-keep p d made (f.close_temp p made).0
                (create-fresh (codes "vaultflix-thumb-*.jpg") p d r) (close-Same p made) in
            elim (Option-cases (f.close_temp p made).1) [
              | inr (e, k) ↦ rw (r, k, extract_frame) (remove-Created p d (f.close_temp p made).0 c)
              | inl k ↦
                  rw (r, k, extract_frame)
                    (kept-LeavesOnly p d _
                      (Created-keep p d _ _ c (run-Same _ (f.close_temp p made).0)))
            ]
      ]

  wrapped-Same : (d : D) (r : D × Option Error) → Same live d r.0 → Same live d (wrapped_write r).0
  wrapped-Same d (e, none) s = s
  wrapped-Same d (e, some x) s = s

  run_segment-Same :
      (src : Str) (start : ℕ) (out : Str) (seek : Bool) (d : D)
      → Same live d (run_segment_ffmpeg f src start out seek d).0
  unfolding run_segment_ffmpeg
  run_segment-Same src start out seek d =
      wrapped-Same d (f.run_ffmpeg (segment_args src start out seek) d) (run-Same _ d)

  extract_segment-Same :
      (src : Str) (start : ℕ) (out : Str) (d : D)
      → Same live d (extract_preview_segment f src start out d).0
  unfolding extract_preview_segment
  extract_segment-Same src start out d =
      let fast = run_segment_ffmpeg f src start out true d in
      let slow = run_segment_ffmpeg f src start out false fast.0 in
      let s₁ = run_segment-Same src start out true d in
      let s₂ = Same-trans live d fast.0 slow.0 s₁ (run_segment-Same src start out false fast.0) in
      elim (Option-cases fast.1) [
        | inr (e, k) ↦ rw (k, extract_preview_segment) s₁
        | inl k ↦ elim (Bool-cases (segment_has_video_bytes f out fast.0)) [
          | inl b ↦ rw (k, b, extract_preview_segment) s₁
          | inr b ↦ elim (Option-cases slow.1) [
            | inr (e, j) ↦ rw (k, b, j, extract_preview_segment) s₂
            | inl j ↦ rw (k, b, j, extract_preview_segment) s₂
          ]
        ]
      ]

  -- the loop holds the segments that it names, at its end and where it fails
  segment_loop-Holds :
      (src : Str) (duration : ℕ) (ratios : List ℕ) (i : ℕ) (ps : List Str) (d e : D)
      → Holds live ps d e
      → Holds live
          (segment_loop f src duration ratios i ps e).1.0
          d
          (segment_loop f src duration ratios i ps e).0
  unfolding segment_loop
  segment_loop-Holds src duration [] i ps d e h = h
  segment_loop-Holds src duration (r ∷ ratios) i ps d e h =
      let pattern = codes "vaultflix-preview-seg" ++ itoa i ++ codes "-*.mp4" in
      let made = (f.create_temp pattern e).0 in
      elim (Result-cases (f.create_temp pattern e).1) [
        | inl (x, k) ↦
            rw (k, segment_loop) (Holds-keep live ps d e made h (create-failed pattern x e k))
        | inr (p, k) ↦
            let closed = (f.close_temp p made).0 in
            let held =
              Holds-create live ps p d e closed h
                (Created-keep p e made closed (create-fresh pattern p e k) (close-Same p made)) in
            let cut = extract_preview_segment f src (duration * r * 10) p closed in
            let after =
              Holds-keep live (ps ++ p ∷ []) d closed cut.0 held
                (extract_segment-Same src (duration * r * 10) p closed) in
            elim (Option-cases cut.1) [
              | inr (x, j) ↦ rw (k, j, segment_loop) after
              | inl j ↦
                  rw (k, j, segment_loop)
                    (segment_loop-Holds src duration ratios (suc i) (ps ++ p ∷ []) d cut.0 after)
            ]
      ]

  write_lines-Same : (list : Str) (ps : List Str) (d : D) → Same live d (write_lines f list ps d).0
  unfolding write_lines
  write_lines-Same list [] d = Same-refl live d
  write_lines-Same list (p ∷ ps) d = elim (Result-cases (f.abs p)) [
    | inl (e, k) ↦ rw (k, write_lines) (Same-refl live d)
    | inr (abs, k) ↦
        let line = codes "file '" ++ abs ++ codes "'" ++ 10 ∷ [] in
        let s = write-Same list line d in
        elim (Option-cases (f.write list line d).1) [
          | inr (e, j) ↦ rw (k, j, write_lines) s
          | inl j ↦
              rw (k, j, write_lines)
                (Same-trans live d _ _ s (write_lines-Same list ps (f.write list line d).0))
        ]
  ]

  write_list-LeavesOnly : (ps : List Str) (d : D) → LeavesOnly live d (write_concat_list f ps d)
  unfolding write_concat_list
  write_list-LeavesOnly ps d =
      let pattern = codes "vaultflix-preview-list-*.txt" in
      let made = (f.create_temp pattern d).0 in
      elim (Result-cases (f.create_temp pattern d).1) [
        | inl (e, k) ↦ rw (k, write_concat_list) (create-failed pattern e d k)
        | inr (p, k) ↦
            let lines = write_lines f p ps made in
            let c =
              Created-keep p d made lines.0 (create-fresh pattern p d k)
                (write_lines-Same p ps made) in
            let closed =
              Created-keep p d lines.0 (f.close_temp p lines.0).0 c (close-Same p lines.0) in
            elim (Option-cases lines.1) [
              | inr (e, j) ↦ rw (k, j, write_concat_list) (remove-Created p d _ closed)
              | inl j ↦
                  rw (k, j, write_concat_list) (kept-LeavesOnly p d (f.close_temp p lines.0) closed)
            ]
      ]

  remove_each-live :
      (ps : List Str) (e : D) (q : Str) → live (remove_each f ps e) q ≡ (not (mem ps q) && live e q)
  unfolding remove_each
  remove_each-live [] e q = refl
  remove_each-live (p ∷ ps) e q =
      ground (arith, remove_each-live ps (f.remove p e) q, laws.removed p q e)

  -- what is held and removed is gone
  remove_each-Same :
      (ps : List Str) (d e : D) → Holds live ps d e → Same live d (remove_each f ps e)
  unfolding Holds Same
  remove_each-Same ps d e (h, n) q = ground (arith, remove_each-live ps e q, h q, n q)

  concat-Same : (ps : List Str) (out : Str) (d : D) → Same live d (concat_segments f ps out d).0
  unfolding concat_segments
  concat-Same ps out d = elim (Result-cases (write_concat_list f ps d).1) [
    | inl (e, k) ↦
        rw (k, concat_segments)
          (left_err live d (write_concat_list f ps d) e k (write_list-LeavesOnly ps d))
    | inr (p, k) ↦
        let listed = (write_concat_list f ps d).0 in
        let c = left_ok live d (write_concat_list f ps d) p k (write_list-LeavesOnly ps d) in
        let ran =
          wrapped-Same listed (f.run_ffmpeg (concat_args p out) listed) (run-Same _ listed) in
        rw (k, concat_segments) (remove-Created p d _ (Created-keep p d listed _ c ran))
  ]

  segments-Same :
      (src : Str) (duration : ℕ) (out : Str) (d : D)
      → Same live d (transcode_preview_segments f src duration out d).0
  unfolding transcode_preview_segments
  segments-Same src duration out d =
      let ratios = preview_segment_timestamp_ratios in
      let looped = segment_loop f src duration ratios 0 [] d in
      let held = segment_loop-Holds src duration ratios 0 [] d d (Holds-nil live d) in
      elim (Option-cases looped.1.1) [
        | inr (e, k) ↦
            rw (k, transcode_preview_segments) (remove_each-Same looped.1.0 d looped.0 held)
        | inl k ↦
            rw (k, transcode_preview_segments)
              (remove_each-Same looped.1.0 d _ (
                Holds-keep live looped.1.0 d looped.0 _ held (concat-Same looped.1.0 out looped.0)))
      ]

  finished-LeavesOnly :
      (p : Str) (d e : D) (r : D × Option Error)
      → Created live p d e
      → Same live e r.0
      → LeavesOnly live d (finished f p r)
  finished-LeavesOnly p d e (k, none) c s = Created-keep p d e k c s
  finished-LeavesOnly p d e (k, some x) c s = remove-Created p d k (Created-keep p d e k c s)

  clip-Same :
      (src : Str) (duration : ℕ) (out : Str) (d : D)
      → Same live d
          (if ltb duration preview_single_clip_max_secs
            then transcode_preview_full f src out d
            else transcode_preview_segments f src duration out d).0
  unfolding transcode_preview_full
  clip-Same src duration out d = elim (Bool-cases (ltb duration preview_single_clip_max_secs)) [
    | inl b ↦ rw b (wrapped-Same d (f.run_ffmpeg (full_args src out) d) (run-Same _ d))
    | inr b ↦ rw b (segments-Same src duration out d)
  ]

  -- A Preview that is cut leaves one temp file more, the one that is returned, and a cut that
  -- fails leaves none: all files in between are removed, at whatever point it fails.
  pub generate-LeavesOnly :
      (src : Str) (duration : ℕ) (d : D)
      → LeavesOnly live d (generate_preview_clip f src duration d)
  unfolding generate_preview_clip
  generate-LeavesOnly src duration d =
      let pattern = codes "vaultflix-preview-*.mp4" in
      let made = (f.create_temp pattern d).0 in
      elim (Result-cases (f.create_temp pattern d).1) [
        | inl (e, k) ↦ rw (k, generate_preview_clip) (create-failed pattern e d k)
        | inr (p, k) ↦
            let closed = (f.close_temp p made).0 in
            let c = Created-keep p d made closed (create-fresh pattern p d k) (close-Same p made) in
            rw (k, generate_preview_clip)
              (finished-LeavesOnly p d closed _ c (clip-Same src duration p closed))
      ]

  -- `NewMediaProcessor(NewFFmpegTool(), …)`, with any uploads
  abbrev processor :
      (Str → Str → D → D × Option Error) → (Str → Str → D → D × Option Error) → Processor D
  processor thumbnails previews = record {
    tool = ffmpeg_tool f;
    upload_thumbnail = thumbnails;
    upload_preview = previews;
    remove_temp = f.remove;
  }

  module _ (thumbnails previews : Str → Str → D → D × Option Error)
      (up_t : (key path : Str) (d : D) → Same live d (thumbnails key path d).0)
      (up_p : (key path : Str) (d : D) → Same live d (previews key path d).0) where
    thumbnail-Same :
        (m : MediaFile) (d : D) → Same live d (make_thumbnail (processor thumbnails previews) m d).0
    unfolding make_thumbnail ffmpeg_tool
    thumbnail-Same m d =
        let framed = extract_frame f m.path (at_second m.duration_seconds) d in
        let left = extract_frame-LeavesOnly m.path (at_second m.duration_seconds) d in
        elim (Result-cases framed.1) [
          | inl (e, k) ↦ rw (k, make_thumbnail) (left_err live d framed e k left)
          | inr (path, k) ↦
              rw (k, make_thumbnail)
                (remove-Created path d _ (
                  Created-keep path d framed.0 _ (left_ok live d framed path k left)
                    (up_t _ path framed.0)))
        ]

    preview-Same :
        (m : MediaFile) (d : D) → Same live d (make_preview (processor thumbnails previews) m d).0
    unfolding make_preview ffmpeg_tool
    preview-Same m d =
        let cut = generate_preview_clip f m.path m.duration_seconds d in
        let left = generate-LeavesOnly m.path m.duration_seconds d in
        elim (Result-cases cut.1) [
          | inl (e, k) ↦ rw (k, make_preview) (left_err live d cut e k left)
          | inr (path, k) ↦
              rw (k, make_preview)
                (remove-Created path d _ (
                  Created-keep path d cut.0 _ (left_ok live d cut path k left) (up_p _ path cut.0)))
        ]

    -- The derivation of a Thumbnail or of a Preview by ffmpeg leaves no temp file behind, whether
    -- it succeeds or fails; an upload leaves the temp files as they are.
    pub make-Same :
        (m : MediaFile) (d : D)
        → Same live d (make_thumbnail (processor thumbnails previews) m d).0
          × Same live d (make_preview (processor thumbnails previews) m d).0
    make-Same m d = (thumbnail-Same m d, preview-Same m d)
