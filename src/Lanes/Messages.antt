-- ===== src/Lanes/Messages.antt =====
-- The WebSocket messages of the Jobs: the reporters of internal/service/import_job.go,
-- backfill_runner.go and enrichment_batch.go. A message carries its payload alone, and goes to the
-- user who started the Job. An error stands for its text.

pub mod Told
use vaultflix.Base.{ℕ, Str, Option, none, some, List, [], ◌∷◌, if◌then◌else◌}
use vaultflix.Errors.{Sentinel, Error, is}
use vaultflix.Model.{BackfillKind}
use vaultflix.Jobs.{
  Status, Job, Meta, kind_meta, Report, item_started, item_done, listing_failed, finished,
}
use vaultflix.Lanes.{
  ImportJob, to_import_job, BackfillJob, to_backfill_job, EnrichJob, to_enrich_job,
}

-- `Status` of a progress message
pub data ItemStatus : Type 0 where
  processing success skipped error : ItemStatus

-- `model.ImportProgress`
pub record ImportProgress : Type 0 where
  pub job_id : Str
  pub file_name : Str
  pub current : ℕ
  pub total : ℕ
  pub status : ItemStatus
  pub error_ : Option Error
  pub imported : ℕ
  pub skipped_ : ℕ
  pub failed : ℕ

-- `model.BackfillProgress`
pub record BackfillProgress : Type 0 where
  pub job_id : Str
  pub kind : BackfillKind
  pub video_id : Str
  pub original_filename : Str
  pub current : ℕ
  pub total : ℕ
  pub status : ItemStatus
  pub error_ : Option Error
  pub succeeded : ℕ
  pub skipped_ : ℕ
  pub failed : ℕ

-- The types `import_progress`, `import_error` and `import_complete`.
pub data ImportMessage : Type 0 where
  import_progress : ImportProgress → ImportMessage
  import_error : Str → Error → ImportMessage
  import_complete : ImportJob → ImportMessage

pub data BackfillMessage : Type 0 where
  backfill_progress : BackfillProgress → BackfillMessage
  backfill_error : Str → BackfillKind → Error → BackfillMessage
  backfill_complete : BackfillJob → BackfillMessage

pub data EnrichMessage : Type 0 where
  enrich_progress : Str → Str → ℕ → ℕ → EnrichMessage
  enrich_error : Str → Error → EnrichMessage
  enrich_batch_complete : EnrichJob → EnrichMessage

-- The status and the error of an item that is done: the `switch` of `ItemDone`.
unfoldable pub status_of : Option Error → ItemStatus × Option Error
status_of none = (success, none)
status_of (some e) = if is Sentinel.job_item_skipped e then (skipped, none) else (error, some e)

-- The `importReport`; `none` is the panic of `toImportJob`, at a Job without a Media Source.
unfoldable pub import_message : Report → Option ImportMessage
unfolding status_of
import_message (item_started job (id, name) current) = some (
    ImportMessage.import_progress (record {
      job_id = job.id;
      file_name = name;
      current = current;
      total = job.total;
      status = processing;
      error_ = none;
      imported = 0;
      skipped_ = 0;
      failed = 0;
    }))
import_message (item_done job (id, name) current e) = some (
    ImportMessage.import_progress (record {
      job_id = job.id;
      file_name = name;
      current = current;
      total = job.total;
      status = (status_of e).0;
      error_ = (status_of e).1;
      imported = job.succeeded;
      skipped_ = job.skipped;
      failed = job.failed;
    }))
import_message (listing_failed job e) = some (ImportMessage.import_error job.id e)
import_message (finished job) = elim (to_import_job job) [
  | none ↦ none
  | some snap ↦ some (ImportMessage.import_complete snap)
]

-- `backfillReport.progress`
unfoldable pub progress : BackfillKind → Job → Str × Str → ℕ → BackfillProgress
progress kind job (id, name) current = record {
  job_id = job.id;
  kind = kind;
  video_id = id;
  original_filename = name;
  current = current;
  total = job.total;
  status = processing;
  error_ = none;
  succeeded = 0;
  skipped_ = 0;
  failed = 0;
}

-- `ItemDone` of a `backfillReport`
unfoldable pub backfill_done : BackfillKind → Job → Str × Str → ℕ → Option Error → BackfillProgress
unfolding progress status_of
backfill_done kind job it current e = record (progress kind job it current) {
  status = (status_of e).0;
  error_ = (status_of e).1;
  succeeded = job.succeeded;
  skipped_ = job.skipped;
  failed = job.failed;
}

-- the kind of a Backfill Job; `none` is the panic of its type assertion.
unfoldable pub kind_of : Job → Option BackfillKind
kind_of job = elim job.meta [ kind_meta kind ↦ some kind | _ ↦ none ]

-- The `backfillReport`
unfoldable pub backfill_message : Report → Option BackfillMessage
unfolding progress backfill_done kind_of
backfill_message (item_started job it current) = elim (kind_of job) [
  | none ↦ none
  | some kind ↦ some (BackfillMessage.backfill_progress (progress kind job it current))
]
backfill_message (item_done job it current e) = elim (kind_of job) [
  | none ↦ none
  | some kind ↦ some (BackfillMessage.backfill_progress (backfill_done kind job it current e))
]
backfill_message (listing_failed job e) = elim (kind_of job) [
  | none ↦ none
  | some kind ↦ some (BackfillMessage.backfill_error job.id kind e)
]
backfill_message (finished job) = elim (to_backfill_job job) [
  | none ↦ none
  | some snap ↦ some (BackfillMessage.backfill_complete snap)
]

-- The `enrichmentReport`, which sends nothing when an item is done.
unfoldable pub enrich_message : Report → Option EnrichMessage
enrich_message (item_started job (id, name) current) =
    some (EnrichMessage.enrich_progress job.id id current job.total)
enrich_message (item_done job it current e) = none
enrich_message (listing_failed job e) = some (EnrichMessage.enrich_error job.id e)
enrich_message (finished job) = some (EnrichMessage.enrich_batch_complete (to_enrich_job job))
