-- ===== src/Media/Clips.antt =====
-- The files that ffmpeg writes: a frame (internal/service/media_tool.go) and a Preview clip
-- (internal/service/preview_clip.go). The functions of `os` and `exec` are the fields of an
-- argument; an open file is its path, and errors of `os.Remove` are passed over as in the source.
pub mod Temps
pub mod Left
use vaultflix.Base.Text.{itoa}
use vaultflix.Base.{
  ℕ, suc, ◌+◌, ◌*◌, ◌/◌, ◌%◌, ltb, Str, codes, Bool, true, false, if◌then◌else◌, Option, none, some,
  List, [], ◌∷◌, ◌++◌,
}
use vaultflix.Errors.{Error, Result, ok, err, wrapped_write}
use vaultflix.Media.{MediaTool}

pub record Files (D : Type 0) : Type 0 where
  pub create_temp : Str → D → D × Result Str
  pub close_temp : Str → D → D × Option Error
  pub remove : Str → D → D
  pub run_ffmpeg : List Str → D → D × Option Error
  pub run_ffprobe : List Str → Result Str
  pub stat_size : Str → D → Result ℕ
  pub abs : Str → Result Str
  pub write : Str → Str → D → D × Option Error

-- `previewSegmentTimestampRatios`, in hundredths
abbrev pub preview_segment_timestamp_ratios : List ℕ
preview_segment_timestamp_ratios = 10 ∷ 50 ∷ 85 ∷ []

abbrev pub preview_single_clip_max_secs : ℕ
preview_single_clip_max_secs = 30

abbrev pub preview_crf : Str
preview_crf = codes "28"

-- `fmt.Sprintf("scale=%d:-2,setsar=1", previewWidthPixels)`
abbrev pub scale_filter : Str
scale_filter = codes "scale=854:-2,setsar=1"

-- `strconv.FormatFloat(v, 'f', 3, 64)` of a number of thousandths
unfoldable pub format_millis : ℕ → Str
unfolding itoa
format_millis n =
    itoa (n / 1000) ++ b'.' ∷ (b'0' + n / 100 % 10) ∷ (b'0' + n / 10 % 10) ∷ (b'0' + n % 10) ∷ []

unfoldable pub full_args : Str → Str → List Str
full_args src_path out_path =
    codes "-i"
    ∷ src_path
    ∷ codes "-c:v"
    ∷ codes "libx264"
    ∷ codes "-crf"
    ∷ preview_crf
    ∷ codes "-an"
    ∷ codes "-vf"
    ∷ scale_filter
    ∷ codes "-pix_fmt"
    ∷ codes "yuv420p"
    ∷ codes "-movflags"
    ∷ codes "+faststart"
    ∷ codes "-y"
    ∷ out_path
    ∷ []

unfoldable pub concat_args : Str → Str → List Str
concat_args list_path out_path =
    codes "-f"
    ∷ codes "concat"
    ∷ codes "-safe"
    ∷ codes "0"
    ∷ codes "-i"
    ∷ list_path
    ∷ codes "-c:v"
    ∷ codes "libx264"
    ∷ codes "-crf"
    ∷ preview_crf
    ∷ codes "-an"
    ∷ codes "-pix_fmt"
    ∷ codes "yuv420p"
    ∷ codes "-movflags"
    ∷ codes "+faststart"
    ∷ codes "-y"
    ∷ out_path
    ∷ []

-- The seek stands before the input, or behind it.
abbrev seek_args : Bool → Str → Str → List Str
seek_args true start src_path = codes "-ss" ∷ start ∷ codes "-i" ∷ src_path ∷ []
seek_args false start src_path = codes "-i" ∷ src_path ∷ codes "-ss" ∷ start ∷ []

unfoldable pub segment_args : Str → ℕ → Str → Bool → List Str
unfolding format_millis
segment_args src_path start out_path input_seek =
    seek_args input_seek (format_millis start) src_path
    ++ codes "-t"
      ∷ codes "2.500"
      ∷ codes "-c:v"
      ∷ codes "libx264"
      ∷ codes "-crf"
      ∷ preview_crf
      ∷ codes "-an"
      ∷ codes "-vf"
      ∷ scale_filter
      ∷ codes "-pix_fmt"
      ∷ codes "yuv420p"
      ∷ codes "-y"
      ∷ out_path
      ∷ []

module _ {D : Type 0} (f : Files D) where
  -- `FFmpegTool.ProbeJSON`
  unfoldable pub probe_json : Str → Result Str
  probe_json path =
      elim (f.run_ffprobe (
        codes "-v"
        ∷ codes "quiet"
        ∷ codes "-print_format"
        ∷ codes "json"
        ∷ codes "-show_format"
        ∷ codes "-show_streams"
        ∷ path
        ∷ [])) [ err e ↦ err (Error.wrap e) | ok out ↦ ok out ]

  unfoldable pub frame_args : ℕ → Str → Str → List Str
  unfolding itoa
  frame_args at_second path tmp_path =
      codes "-ss"
      ∷ itoa at_second
      ∷ codes "-i"
      ∷ path
      ∷ codes "-vframes"
      ∷ codes "1"
      ∷ codes "-q:v"
      ∷ codes "2"
      ∷ codes "-y"
      ∷ tmp_path
      ∷ []

  -- the temp file is returned, or removed
  unfoldable pub kept_or_removed : Str → D × Option Error → D × Result Str
  kept_or_removed path (d, none) = (d, ok path)
  kept_or_removed path (d, some e) = (f.remove path d, err (Error.wrap e))

  -- `FFmpegTool.ExtractFrame`
  unfoldable pub extract_frame : Str → ℕ → D → D × Result Str
  extract_frame path at_second d =
      let (created, tmp) = f.create_temp (codes "vaultflix-thumb-*.jpg") d in
      elim tmp [
        | err e ↦ (created, err (Error.wrap e))
        | ok tmp_path ↦
            let (closed, failed) = f.close_temp tmp_path created in
            elim failed [
              | some e ↦ (f.remove tmp_path closed, err (Error.wrap e))
              | none ↦
                  kept_or_removed tmp_path
                    (f.run_ffmpeg (frame_args at_second path tmp_path) closed)
            ]
      ]

  unfoldable pub segment_has_video_bytes : Str → D → Bool
  segment_has_video_bytes path d = elim (f.stat_size path d) [
    | err e ↦ false
    | ok size ↦ ltb 1024 size
  ]

  unfoldable pub run_segment_ffmpeg : Str → ℕ → Str → Bool → D → D × Option Error
  run_segment_ffmpeg src_path start out_path input_seek d =
      wrapped_write (f.run_ffmpeg (segment_args src_path start out_path input_seek) d)

  -- `extractPreviewSegment`: the slow seek is tried where the fast one wrote nothing.
  unfoldable pub extract_preview_segment : Str → ℕ → Str → D → D × Option Error
  extract_preview_segment src_path start out_path d =
      let (fast, failed) = run_segment_ffmpeg src_path start out_path true d in
      elim failed [
        | some e ↦ (fast, some e)
        | none ↦
            let (slow, refused) = run_segment_ffmpeg src_path start out_path false fast in
            if segment_has_video_bytes out_path fast then (fast, none) else elim refused [
              | some e ↦ (slow, some e)
              | none ↦
                  (slow, if segment_has_video_bytes out_path slow then none else some Error.plain)
            ]
      ]

  -- The loop of `transcodePreviewSegments`: the segments created, also where it fails.
  unfoldable pub segment_loop : Str → ℕ → List ℕ → ℕ → List Str → D → D × (List Str × Option Error)
  unfolding itoa
  segment_loop src_path duration_seconds [] i seg_paths d = (d, (seg_paths, none))
  segment_loop src_path duration_seconds (ratio ∷ ratios) i seg_paths d =
      let (created, tmp) =
        f.create_temp (codes "vaultflix-preview-seg" ++ itoa i ++ codes "-*.mp4") d in
      elim tmp [
        | err e ↦ (created, (seg_paths, some (Error.wrap e)))
        | ok path ↦
            let closed = (f.close_temp path created).0 in
            let (cut, failed) =
              extract_preview_segment src_path (duration_seconds * ratio * 10) path closed in
            elim failed [
              | some e ↦ (cut, (seg_paths ++ path ∷ [], some e))
              | none ↦
                  segment_loop src_path duration_seconds ratios (suc i) (seg_paths ++ path ∷ []) cut
            ]
      ]

  -- The lines of the list; an error ends the loop.
  unfoldable pub write_lines : Str → List Str → D → D × Option Error
  write_lines list_path [] d = (d, none)
  write_lines list_path (p ∷ ps) d = elim (f.abs p) [
    | err e ↦ (d, some (Error.wrap e))
    | ok abs ↦
        let (written, failed) =
          f.write list_path (codes "file '" ++ abs ++ codes "'" ++ 10 ∷ []) d in
        elim failed [
          | some e ↦ (written, some (Error.wrap e))
          | none ↦ write_lines list_path ps written
        ]
  ]

  -- `writeConcatList`: a list that is not written whole is closed and removed.
  unfoldable pub write_concat_list : List Str → D → D × Result Str
  write_concat_list seg_paths d =
      let (created, tmp) = f.create_temp (codes "vaultflix-preview-list-*.txt") d in
      elim tmp [
        | err e ↦ (created, err (Error.wrap e))
        | ok list_path ↦
            let (written, failed) = write_lines list_path seg_paths created in
            elim failed [
              | some e ↦ (f.remove list_path (f.close_temp list_path written).0, err e)
              | none ↦ kept_or_removed list_path (f.close_temp list_path written)
            ]
      ]

  -- The deferred removal of the segments.
  unfoldable pub remove_each : List Str → D → D
  remove_each [] d = d
  remove_each (p ∷ ps) d = remove_each ps (f.remove p d)

  -- From the list on; its own removal comes before that of the segments.
  unfoldable pub concat_segments : List Str → Str → D → D × Option Error
  concat_segments seg_paths out_path d =
      let (listed, list_path) = write_concat_list seg_paths d in
      elim list_path [
        | err e ↦ (listed, some e)
        | ok path ↦
            let (joined, failed) =
              wrapped_write (f.run_ffmpeg (concat_args path out_path) listed) in
            (f.remove path joined, failed)
      ]

  unfoldable pub transcode_preview_segments : Str → ℕ → Str → D → D × Option Error
  transcode_preview_segments src_path duration_seconds out_path d =
      let (looped, (seg_paths, failed)) =
        segment_loop src_path duration_seconds preview_segment_timestamp_ratios 0 [] d in
      elim failed [
        | some e ↦ (remove_each seg_paths looped, some e)
        | none ↦
            let (joined, refused) = concat_segments seg_paths out_path looped in
            (remove_each seg_paths joined, refused)
      ]

  unfoldable pub transcode_preview_full : Str → Str → D → D × Option Error
  transcode_preview_full src_path out_path d =
      wrapped_write (f.run_ffmpeg (full_args src_path out_path) d)

  abbrev pub finished : Str → D × Option Error → D × Result Str
  finished path (d, none) = (d, ok path)
  finished path (d, some e) = (f.remove path d, err e)

  unfoldable pub generate_preview_clip : Str → ℕ → D → D × Result Str
  generate_preview_clip src_path duration_seconds d =
      let (created, final) = f.create_temp (codes "vaultflix-preview-*.mp4") d in
      elim final [
        | err e ↦ (created, err (Error.wrap e))
        | ok final_path ↦
            let closed = (f.close_temp final_path created).0 in
            finished final_path (
              if ltb duration_seconds preview_single_clip_max_secs
              then transcode_preview_full src_path final_path closed
              else transcode_preview_segments src_path duration_seconds final_path closed)
      ]

  -- `FFmpegTool`
  unfoldable pub ffmpeg_tool : MediaTool D
  ffmpeg_tool = record {
    probe_json = probe_json;
    extract_frame = extract_frame;
    cut_preview = generate_preview_clip;
  }
