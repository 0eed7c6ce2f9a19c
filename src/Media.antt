-- ===== src/Media.antt =====
-- What is derived from a Video's file (internal/service/media_processor.go, asset_keys.go). ffprobe
-- and ffmpeg, the object store, `os.Remove` and the decoding of ffprobe's JSON are arguments.
pub mod Clips
pub mod Backfills
use vaultflix.Base.{
  ℕ, ◌/◌, ltb, Str, codes, eq_str, is_empty, to_lower, Bool, true, false, ◌&&◌, ◌||◌, not,
  if◌then◌else◌, Option, none, some, List, [], ◌∷◌, ◌++◌,
}
use vaultflix.Base.Int.{ℤ, pos, negsuc}
use vaultflix.Base.Text.{itoa}
use vaultflix.Errors.{Error, Result, ok, err}
use vaultflix.Model.{PlayMode, MediaInfo, MediaFile}
use vaultflix.Paths.{ext}
use vaultflix.Playback.{classify_play_mode}
use vaultflix.Streaming.Decimal.{parse_float}

-- `mediaTool`
pub record MediaTool (D : Type 0) : Type 0 where
  pub probe_json : Str → Result Str
  pub extract_frame : Str → ℕ → D → D × Result Str
  pub cut_preview : Str → ℕ → D → D × Result Str

-- What `MediaProcessor` holds, and `os.Remove`, whose error is only logged.
pub record Processor (D : Type 0) : Type 0 where
  pub tool : MediaTool D
  pub upload_thumbnail : Str → Str → D → D × Option Error
  pub upload_preview : Str → Str → D → D × Option Error
  pub remove_temp : Str → D → D

unfoldable pub thumbnail_key : Str → Str
thumbnail_key video_id = codes "thumbnails/" ++ video_id ++ codes ".jpg"

unfoldable pub preview_key : Str → Str
preview_key video_id = codes "previews/" ++ video_id ++ codes ".mp4"

-- `ffprobeStream`
pub record FfprobeStream : Type 0 where
  pub codec_type : Str
  pub codec_name : Str
  pub width : ℕ
  pub height : ℕ

-- `ffprobeOutput`, with its format's duration
pub record FfprobeOutput : Type 0 where
  pub duration : Str
  pub streams : List FfprobeStream

unfoldable pub extension_to_mime : Str → Str
unfolding eq_str
extension_to_mime e =
    if eq_str e (codes ".mp4")
    then codes "video/mp4"
    else if eq_str e (codes ".mkv")
    then codes "video/x-matroska"
    else if eq_str e (codes ".avi")
    then codes "video/x-msvideo"
    else if eq_str e (codes ".wmv")
    then codes "video/x-ms-wmv"
    else if eq_str e (codes ".mov")
    then codes "video/quicktime"
    else codes "application/octet-stream"

unfoldable pub mime_type_for : Str → Str → Str → Str
unfolding extension_to_mime classify_play_mode
mime_type_for e video_codec audio_codec = elim (classify_play_mode e video_codec audio_codec) [
  | PlayMode.direct ↦ codes "video/mp4"
  | _ ↦ extension_to_mime e
]

-- `int(duration)`; what does not parse is 0. A length below 0, which ffprobe does not print, is
-- taken as 0 too.
unfoldable pub whole_seconds : Str → ℕ
unfolding parse_float
whole_seconds s = elim (parse_float s) [
  | none ↦ 0
  | some (pos n) ↦ n / 1_000_000
  | some (negsuc n) ↦ 0
]

-- What the loop over the streams fills in.
pub record Codecs : Type 0 where
  pub video_codec : Str
  pub resolution : Str
  pub audio_codec : Str

unfoldable pub take_stream : Codecs → FfprobeStream → Codecs
unfolding eq_str is_empty itoa
take_stream c s =
    if eq_str s.codec_type (codes "video") && is_empty c.video_codec
    then record c {
      video_codec = s.codec_name;
      resolution = itoa s.width ++ codes "x" ++ itoa s.height;
    }
    else if eq_str s.codec_type (codes "audio") && is_empty c.audio_codec
    then record c { audio_codec = s.codec_name }
    else c

unfoldable pub streams_loop : List FfprobeStream → Codecs → Codecs
unfolding take_stream
streams_loop [] c = c
streams_loop (s ∷ ss) c = streams_loop ss (take_stream c s)

abbrev pub no_codecs : Codecs
no_codecs = record { video_codec = []; resolution = []; audio_codec = [] }

-- `parseProbeOutput`, `unmarshal` being the decoding of the JSON.
unfoldable pub parse_probe_output : (Str → Result FfprobeOutput) → Str → Str → Result MediaInfo
unfolding streams_loop whole_seconds mime_type_for
parse_probe_output unmarshal raw e = elim (unmarshal raw) [
  | err f ↦ err (Error.wrap f)
  | ok probe ↦
      let c = streams_loop probe.streams no_codecs in
      ok (record {
        duration_seconds = whole_seconds probe.duration;
        resolution = c.resolution;
        mime_type = mime_type_for e c.video_codec c.audio_codec;
        video_codec = c.video_codec;
        audio_codec = c.audio_codec;
      })
]

-- a quarter into the Video, and at least a second
abbrev pub at_second : ℕ → ℕ
at_second duration = let at = duration / 4 in if ltb at 1 then 1 else at

module _ {D : Type 0} (p : Processor D) where
  unfoldable pub probe_media_info : (Str → Result FfprobeOutput) → Str → Result MediaInfo
  unfolding parse_probe_output ext to_lower
  probe_media_info unmarshal path = elim (p.tool.probe_json path) [
    | err e ↦ err (Error.wrap e)
    | ok raw ↦ elim (parse_probe_output unmarshal raw (to_lower (ext path))) [
      | err e ↦ err (Error.wrap e)
      | ok info ↦ ok info
    ]
  ]

  abbrev keyed : Str → Option Error → Result Str
  keyed key none = ok key
  keyed key (some e) = err (Error.wrap e)

  unfoldable pub make_thumbnail : MediaFile → D → D × Result Str
  unfolding thumbnail_key
  make_thumbnail f d =
      let (framed, tmp) = p.tool.extract_frame f.path (at_second f.duration_seconds) d in
      elim tmp [
        | err e ↦ (framed, err (Error.wrap e))
        | ok path ↦
            let (uploaded, failed) = p.upload_thumbnail (thumbnail_key f.video_id) path framed in
            (p.remove_temp path uploaded, keyed (thumbnail_key f.video_id) failed)
      ]

  unfoldable pub make_preview : MediaFile → D → D × Result Str
  unfolding preview_key
  make_preview f d =
      let (cut, tmp) = p.tool.cut_preview f.path f.duration_seconds d in
      elim tmp [
        | err e ↦ (cut, err (Error.wrap e))
        | ok path ↦
            let (uploaded, failed) = p.upload_preview (preview_key f.video_id) path cut in
            (p.remove_temp path uploaded, keyed (preview_key f.video_id) failed)
      ]
