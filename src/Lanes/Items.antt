-- ===== src/Lanes/Items.antt =====
-- The items of the Jobs: one scanned file of an Import (internal/service/import_file.go), one Video
-- of a Backfill (internal/service/backfill_runner.go) or of an Enrichment
-- (internal/service/enrichment_batch.go).
pub mod Repeats
use vaultflix.Base.{
  ℕ, ◌-◌, length, take, Str, codes, eq_str, is_empty, ltb, ◌&&◌, Bool, true, false, not,
  if◌then◌else◌, Option, none, some, List, [], ◌∷◌, map,
}
use vaultflix.Errors.{Sentinel, Error, is, Result, ok, err}
use vaultflix.Model.{EnrichmentStatus, MediaSource, Video, MediaInfo, MediaFile}
use vaultflix.Paths.{rel, file_name, ext}
use vaultflix.Jobs.{Item}

-- What an Import calls: the Video repository, `os.Stat`, `MediaProcessor`, `KeyframeService` and
-- `avid.ExtractCode`. `ensure_index` only logs its error.
pub record Importer (D : Type 0) : Type 0 where
  pub find_by_source_and_path : Str → Str → D → Result Video
  pub create : Video → D → D × Option Error
  pub stat_size : Str → Result ℕ
  pub probe_media_info : Str → Result MediaInfo
  pub make_thumbnail : MediaFile → D → D × Result Str
  pub make_preview : MediaFile → D → D × Result Str
  pub ensure_index : Video → Str → D → D
  pub extract_code : Str → Option Str

unfoldable pub code_from_filename : (Str → Option Str) → Str → Str × EnrichmentStatus
code_from_filename extract_code filename = elim (extract_code filename) [
  | some code ↦ (code, EnrichmentStatus.pending)
  | none ↦ ([], EnrichmentStatus.no_code)
]

-- `strings.TrimSuffix(filename, filepath.Ext(filename))`
unfoldable pub title_of : Str → Str
unfolding ext
title_of filename = take (length filename - length (ext filename)) filename

abbrev preview_key : Result Str → Str
preview_key (ok key) = key
preview_key (err _) = []

-- The record that `deriveVideo` fills, before its Media Source is set.
unfoldable pub new_video : Str → Str → ℕ → MediaInfo → Str → Str → Str × EnrichmentStatus → Video
new_video id filename size info thumbnail preview (code, status) = record {
  id = id;
  title = title_of filename;
  description = [];
  minio_object_key = [];
  thumbnail_key = thumbnail;
  preview_key = preview;
  duration_seconds = info.duration_seconds;
  resolution = info.resolution;
  file_size_bytes = size;
  mime_type = info.mime_type;
  video_codec = info.video_codec;
  audio_codec = info.audio_codec;
  original_filename = filename;
  created_at = 0;
  updated_at = 0;
  source_id = none;
  file_path = none;
  code = code;
  release_date = none;
  runtime_minutes = 0;
  maker = [];
  label = [];
  series = [];
  cover_key = [];
  enrichment_status = status;
  enriched_at = none;
}

-- `videos[:e.req.Limit]`; 0 is no limit.
unfoldable pub limited : ℕ → List Video → List Video
limited limit videos =
    if ltb 0 limit && ltb limit (length videos) then take limit videos else videos

module _ {D : Type 0} where
  -- From the thumbnail on; a preview that fails only leaves its key empty.
  unfoldable pub derive_media : Importer D → Str → Str → ℕ → MediaInfo → D → D × Result Video
  derive_media im id path size info d =
      let file : MediaFile = record {
        video_id = id;
        path = path;
        duration_seconds = info.duration_seconds;
      } in
      let (thumbed, thumbnail) = im.make_thumbnail file d in
      elim thumbnail [
        | err e ↦ (thumbed, err (Error.wrap e))
        | ok key ↦
            let (previewed, preview) = im.make_preview file thumbed in
            (
              previewed,
              ok (
                  new_video id (file_name path) size info key (preview_key preview)
                    (code_from_filename im.extract_code (file_name path))),
            )
      ]

  -- `deriveVideo`; `id` is the fresh UUID.
  unfoldable pub derive_video : Importer D → Str → Str → D → D × Result Video
  derive_video im id path d = elim (im.stat_size path) [
    | err e ↦ (d, err (Error.wrap e))
    | ok size ↦ elim (im.probe_media_info path) [
      | err e ↦ (d, err (Error.wrap e))
      | ok info ↦ derive_media im id path size info d
    ]
  ]

  -- The new Video is stored with its place, and then indexed.
  unfoldable pub register : Importer D → MediaSource → Str → Str → Video → D → D × Option Error
  register im source path rel_path v d =
      let placed = record v { source_id = some source.id; file_path = some rel_path } in
      let (created, failed) = im.create placed d in
      elim failed [
        | some e ↦ (created, some (Error.wrap e))
        | none ↦ (im.ensure_index placed path created, none)
      ]

  unfoldable pub import_new : Importer D → MediaSource → Str → Str → Str → D → D × Option Error
  import_new im source id path rel_path d =
      let (derived, video) = derive_video im id path d in
      elim video [
        | err e ↦ (derived, some (Error.wrap e))
        | ok v ↦ register im source path rel_path v derived
      ]

  -- `processOneFile`
  unfoldable pub process_one_file : Importer D → MediaSource → Str → Str → D → D × Option Error
  process_one_file im source id path d = elim (rel source.mount_path path) [
    | none ↦ (d, some (Error.wrap Error.plain))
    | some rel_path ↦ elim (im.find_by_source_and_path source.id rel_path d) [
      | ok _ ↦ (d, some (Error.sentinel Sentinel.job_item_skipped))
      | err e ↦
          if not (is Sentinel.not_found e)
          then (d, some (Error.wrap e))
          else import_new im source id path rel_path d
    ]
  ]

  -- How a Backfill item reports the error of its task.
  unfoldable pub backfill_outcome : D × Option Error → D × Option Error
  backfill_outcome (d, none) = (d, none)
  backfill_outcome (d, some e) =
      if is Sentinel.media_source_disabled e
      then (d, some (Error.wrap_both (Error.sentinel Sentinel.job_item_skipped) e))
      else (d, some (Error.wrap e))

  -- One item of `backfillItems.Items`.
  unfoldable pub backfill_item : (Video → D → D × Option Error) → Video → Item D
  backfill_item process_one v = record {
    id = v.id;
    name = v.original_filename;
    run = λ d. backfill_outcome (process_one v d);
  }

  -- `backfillItems.Items`
  unfoldable pub backfill_items :
      (D → Result (List Video)) → (Video → D → D × Option Error) → D → D × Result (List (Item D))
  backfill_items list process_one d = elim (list d) [
    | err e ↦ (d, err (Error.wrap e))
    | ok videos ↦ (d, ok (map (backfill_item process_one) videos))
  ]

  -- `enrichOne`, of what the enrichment and the acceptance return.
  unfoldable pub enrich_one :
      (Str → D → D × Option Error)
      → (Str → D → D × Option Error)
      → Bool
      → Str
      → D
      → D × Option Error
  enrich_one enrich accept auto_accept video_id d =
      let (enriched, failed) = enrich video_id d in
      elim failed [
        | some e ↦ (enriched, some (Error.wrap e))
        | none ↦
            if not auto_accept
            then (enriched, none)
            else let (accepted, refused) = accept video_id enriched in
              (accepted, elim refused [ none ↦ none | some e ↦ some (Error.wrap e) ])
      ]

  -- `enrichmentItems.Items`
  unfoldable pub enrichment_items :
      (D → Result (List Video)) → (Str → D → D × Option Error) → ℕ → D → D × Result (List (Item D))
  enrichment_items list run limit d = elim (list d) [
    | err e ↦ (d, err (Error.wrap e))
    | ok videos ↦ (
      d,
      ok (
          map (λ v. record { id = v.id; name = v.original_filename; run = run v.id })
            (limited limit videos)),
    )
  ]
