-- ===== src/Media/Backfills.antt =====
-- The four kinds of Backfill (internal/service/preview_backfill.go, codec_backfill.go,
-- keyframe_backfill.go, code_backfill.go): which Videos a Job takes, and what it does to one. The
-- repository, the files of the Media Sources and `KeyframeService` are arguments over a state `D`.
pub mod Done
use vaultflix.Base.{
  ℕ, Str, Bool, true, false, not, if◌then◌else◌, Option, none, some, List, [], ◌∷◌,
}
use vaultflix.Errors.{Error, Result, ok, err, wrapping, wrapped_write}
use vaultflix.Model.{EnrichmentStatus, Video, MediaInfo, MediaFile}
use vaultflix.Playback.{Resolver, resolve_video_file}
use vaultflix.Keyframes.{uses_keyframe_index}
use vaultflix.Lanes.Items.{code_from_filename}

-- What the Backfills call.
pub record Backfilled (D : Type 0) : Type 0 where
  pub list_missing_previews : D → Result (List Video)
  pub list_missing_codecs : ℕ → D → Result (List Video)
  pub list_keyframe_candidates : ℕ → D → Result (List Video)
  pub list_by_enrichment_status : EnrichmentStatus → D → Result (List Video)
  pub update_preview_key : Str → Str → D → D × Option Error
  pub update_codecs : Str → Str → Str → D → D × Option Error
  pub seed_code : Str → Str → EnrichmentStatus → D → D × Option Error
  pub files : Resolver
  pub make_preview : MediaFile → D → D × Result Str
  pub probe_media_info : Str → Result MediaInfo
  pub ensure_index : Video → Str → D → D × Option Error
  pub extract_code : Str → Option Str

-- The loop of `KeyframeBackfill.List`.
unfoldable pub only_remux : List Video → List Video
unfolding uses_keyframe_index
only_remux [] = []
only_remux (v ∷ vs) = let rest = only_remux vs in if uses_keyframe_index v then v ∷ rest else rest

module _ {D : Type 0} (b : Backfilled D) where
  unfoldable pub list_previews : D → Result (List Video)
  list_previews d = wrapping (b.list_missing_previews d)

  unfoldable pub list_codecs : D → Result (List Video)
  list_codecs d = wrapping (b.list_missing_codecs 10_000 d)

  unfoldable pub list_keyframes : D → Result (List Video)
  unfolding only_remux
  list_keyframes d = elim (b.list_keyframe_candidates 10_000 d) [
    | err e ↦ err (Error.wrap e)
    | ok candidates ↦ ok (only_remux candidates)
  ]

  unfoldable pub list_codes : D → Result (List Video)
  list_codes d = wrapping (b.list_by_enrichment_status EnrichmentStatus.unset d)

  -- `PreviewBackfill.ProcessOne`
  unfoldable pub process_preview : Video → D → D × Option Error
  process_preview v d = elim (resolve_video_file b.files v) [
    | err e ↦ (d, some e)
    | ok path ↦
        let (made, key) =
          b.make_preview
            (record { video_id = v.id; path = path; duration_seconds = v.duration_seconds }) d in
        elim key [
          | err e ↦ (made, some (Error.wrap e))
          | ok object_key ↦ wrapped_write (b.update_preview_key v.id object_key made)
        ]
  ]

  -- the Video with the codecs that were probed
  abbrev pub probed : Video → MediaInfo → Video
  probed v info = record v { video_codec = info.video_codec; audio_codec = info.audio_codec }

  -- `CodecBackfill.ProcessOne`: an index that cannot be built is only logged.
  unfoldable pub process_codec : Video → D → D × Option Error
  process_codec v d = elim (resolve_video_file b.files v) [
    | err e ↦ (d, some e)
    | ok abs ↦ elim (b.probe_media_info abs) [
      | err e ↦ (d, some (Error.wrap e))
      | ok info ↦
          let (updated, failed) = b.update_codecs v.id info.video_codec info.audio_codec d in
          elim failed [
            | some e ↦ (updated, some (Error.wrap e))
            | none ↦ ((b.ensure_index (probed v info) abs updated).0, none)
          ]
    ]
  ]

  -- `KeyframeBackfill.ProcessOne`
  unfoldable pub process_keyframe : Video → D → D × Option Error
  process_keyframe v d = elim (resolve_video_file b.files v) [
    | err e ↦ (d, some e)
    | ok abs ↦ wrapped_write (b.ensure_index v abs d)
  ]

  -- `CodeBackfill.ProcessOne`
  unfoldable pub process_code : Video → D → D × Option Error
  unfolding code_from_filename
  process_code v d =
      let (code, status) = code_from_filename b.extract_code v.original_filename in
      wrapped_write (b.seed_code v.id code status d)
