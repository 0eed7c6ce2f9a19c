-- ===== src/Playback.antt =====
-- Where a Video's bytes are, and how they play (internal/service/video_playback.go, play_mode.go,
-- media_source_resolve.go; internal/model/playback.go). The repository and the disk are arguments.
pub mod Files
pub mod Hls
use vaultflix.Base.{
  Str, codes, eq_str, is_empty, to_lower, Bool, true, false, ◌&&◌, ◌||◌, not, if◌then◌else◌, Option,
  none, some, [], ◌∷◌,
}
use vaultflix.Errors.{Sentinel, Error, is, Result, ok, err, ◌>>=◌, wrapping}
use vaultflix.Model.{PlayMode, MediaSource, Video}
use vaultflix.Paths.{join, ext, trim_dot, is_within}

unfoldable pub browser_plays_video_codec : Str → Bool
unfolding eq_str
browser_plays_video_codec codec = eq_str codec (codes "h264")

unfoldable pub browser_plays_audio_codec : Str → Bool
unfolding eq_str
browser_plays_audio_codec codec = eq_str codec (codes "aac") || eq_str codec (codes "mp3")

unfoldable pub browser_plays_container : Str → Bool
unfolding eq_str
browser_plays_container e = eq_str e (codes "mp4") || eq_str e (codes "mov")

unfoldable pub classify_play_mode : Str → Str → Str → PlayMode
unfolding browser_plays_video_codec browser_plays_audio_codec browser_plays_container
classify_play_mode container video_codec audio_codec =
    let c = to_lower (trim_dot container) in
    let v = to_lower video_codec in
    let a = to_lower audio_codec in
    if not (browser_plays_video_codec v) || not (browser_plays_audio_codec a)
    then PlayMode.transcode
    else if not (browser_plays_container c)
    then PlayMode.remux
    else PlayMode.direct

unfoldable pub video_play_mode : Video → PlayMode
unfolding classify_play_mode ext trim_dot
video_play_mode v =
    classify_play_mode (trim_dot (ext v.original_filename)) v.video_codec v.audio_codec

unfoldable pub stat_file : (Str → Option Error) → Str → Result Str
stat_file stat abs = elim (stat abs) [
  | none ↦ ok abs
  | some e ↦
      if is Sentinel.file_not_exist e
      then err (Error.wrap (Error.sentinel Sentinel.path_not_exist))
      else err (Error.wrap e)
]

-- `MediaSourceService.ResolveFile`; `stat` gives the error of `os.Stat`.
unfoldable pub resolve_file :
    (Str → Result MediaSource) → (Str → Option Error) → Str → Str → Str → Result Str
resolve_file find_by_id stat mount_prefix source_id file_path = do
  source ← wrapping (find_by_id source_id)
  let abs = join source.mount_path file_path
  if not source.enabled
      then err (Error.wrap (Error.sentinel Sentinel.media_source_disabled))
      else if not (is_within abs source.mount_path) || not (is_within abs mount_prefix)
      then err (Error.wrap (Error.sentinel Sentinel.path_not_allowed))
      else stat_file stat abs

-- The files of the Media Sources: `MediaSourceService`, behind `mediaFileResolver`.
abbrev pub Resolver : Type 0
Resolver = Str → Str → Result Str

unfoldable pub resolve_video_file : Resolver → Video → Result Str
resolve_video_file files v = elim v.source_id [
  | none ↦ err Error.plain
  | some source ↦ elim v.file_path [
    | none ↦ err Error.plain
    | some path ↦ wrapping (files source path)
  ]
]

-- `model.PlaybackSource`
pub record PlaybackSource : Type 0 where
  pub path : Str
  pub legacy_object_key : Str
  pub play_mode : PlayMode
  pub mime_type : Str

unfoldable pub is_legacy : PlaybackSource → Bool
unfolding is_empty
is_legacy p = not (is_empty p.legacy_object_key)

abbrev is_none {ℓ} : {A : Type ℓ} → Option A → Bool
is_none none = true
is_none (some _) = false

-- An error of the Media Source that is `not_found` is not passed on as one.
unfoldable pub hide_missing : Result Str → Result Str
hide_missing (ok path) = ok path
hide_missing (err e) = if is Sentinel.not_found e then err Error.plain else err e

unfoldable pub resolve_playback : (Str → Result Video) → Resolver → Str → Result PlaybackSource
resolve_playback get_by_id files video_id = do
  video ← wrapping (get_by_id video_id)
  let mode = video_play_mode video
  if is_none video.source_id && not (is_empty video.minio_object_key)
      then ok (record {
        path = [];
        legacy_object_key = video.minio_object_key;
        play_mode = mode;
        mime_type = video.mime_type;
      })
      else do
        path ← hide_missing (resolve_video_file files video)
        ok (record {
          path = path;
          legacy_object_key = [];
          play_mode = mode;
          mime_type = video.mime_type;
        })
