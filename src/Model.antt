-- ===== src/Model.antt =====
-- The records that the services share (internal/model). A time is a number, an `int` that the
-- program never makes negative is a natural number, and a nil pointer is `none`.
use vaultflix.Base.{ℕ, Str, Bool, Option}

-- `model.PlayMode`
pub data PlayMode : Type 0 where
  direct remux transcode : PlayMode

-- `model.BackfillKind`
pub data BackfillKind : Type 0 where
  preview codec keyframe code : BackfillKind

-- The `Enrichment…` constants of internal/model/enrichment.go.
pub data EnrichmentStatus : Type 0 where
  unset pending suggested enriched failed no_code : EnrichmentStatus

-- `model.MediaSource`, without its timestamps
pub record MediaSource : Type 0 where
  pub id : Str
  pub label : Str
  pub mount_path : Str
  pub enabled : Bool

-- `model.Video`
pub record Video : Type 0 where
  pub id : Str
  pub title : Str
  pub description : Str
  pub minio_object_key : Str
  pub thumbnail_key : Str
  pub preview_key : Str
  pub duration_seconds : ℕ
  pub resolution : Str
  pub file_size_bytes : ℕ
  pub mime_type : Str
  pub video_codec : Str
  pub audio_codec : Str
  pub original_filename : Str
  pub created_at : ℕ
  pub updated_at : ℕ
  pub source_id : Option Str
  pub file_path : Option Str
  pub code : Str
  pub release_date : Option ℕ
  pub runtime_minutes : ℕ
  pub maker : Str
  pub label : Str
  pub series : Str
  pub cover_key : Str
  pub enrichment_status : EnrichmentStatus
  pub enriched_at : Option ℕ

-- `model.MediaInfo`
pub record MediaInfo : Type 0 where
  pub duration_seconds : ℕ
  pub resolution : Str
  pub mime_type : Str
  pub video_codec : Str
  pub audio_codec : Str

-- `model.MediaFile`
pub record MediaFile : Type 0 where
  pub video_id : Str
  pub path : Str
  pub duration_seconds : ℕ
