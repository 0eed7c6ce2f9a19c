-- ===== src/Lanes.antt =====
-- The services that run Jobs on a Job Lane. Import Jobs (internal/service/import_service.go,
-- import_job.go) and Backfill Jobs (internal/service/backfill_runner.go) share the Media Lane,
-- Enrichment Jobs (internal/service/enrichment_batch.go) have a lane of their own.
pub mod Shared
pub mod Items
pub mod Scan
pub mod Messages
use vaultflix.Base.{
  ℕ, ◌==◌, ltb, Str, codes, eq_str, Bool, true, false, ◌&&◌, ◌||◌, not, if◌then◌else◌, Option, none,
  some, List, [], ◌∷◌, ◌++◌, map,
}
use vaultflix.Errors.{Sentinel, Error, Result, ok, err, wrapping}
use vaultflix.Model.{BackfillKind, MediaSource}
use vaultflix.Jobs.{
  Status, running, completed, failed, Meta, nothing, source_meta, kind_meta, Item, JobItemError,
  Job, Spec, Runner, start, latest, cancel,
}

abbrev pub job_kind_import : Str
job_kind_import = codes "import"

abbrev pub job_kind_backfill : Str
job_kind_backfill = codes "backfill"

abbrev pub job_kind_enrichment : Str
job_kind_enrichment = codes "enrichment"

-- `model.ImportError`
pub record ImportError : Type 0 where
  pub file_name : Str
  pub error : Error

-- `model.ImportJob`
pub record ImportJob : Type 0 where
  pub id : Str
  pub source_id : Str
  pub source_label : Str
  pub status : Status
  pub total : ℕ
  pub processed : ℕ
  pub imported : ℕ
  pub skipped : ℕ
  pub failed_ : ℕ
  pub errors : List ImportError
  pub started_at : ℕ
  pub finished_at : Option ℕ

abbrev pub is_completed : Status → Bool
is_completed completed = true
is_completed _ = false

abbrev pub is_running : Status → Bool
is_running running = true
is_running _ = false

unfoldable pub import_status : Job → Status
import_status j =
    if is_completed j.status && ltb 0 j.failed && j.succeeded == 0 then failed else j.status

abbrev listing_error : MediaSource → Option Error → List ImportError
listing_error source none = []
listing_error source (some e) = record { file_name = source.mount_path; error = e } ∷ []

abbrev item_error : JobItemError → ImportError
item_error e = record { file_name = e.item_name; error = e.error }

-- `toImportJob`; `none` is the panic of its type assertion, at a Job of another kind.
unfoldable pub to_import_job : Job → Option ImportJob
unfolding import_status
to_import_job j = elim j.meta [
  | source_meta source ↦ some (record {
    id = j.id;
    source_id = source.id;
    source_label = source.label;
    status = import_status j;
    total = j.total;
    processed = j.processed;
    imported = j.succeeded;
    skipped = j.skipped;
    failed_ = j.failed;
    errors = listing_error source j.list_error ++ map item_error j.errors;
    started_at = j.started_at;
    finished_at = j.finished_at;
  })
  | _ ↦ none
]

-- `model.BackfillError`
pub record BackfillError : Type 0 where
  pub video_id : Str
  pub original_filename : Str
  pub error : Error

-- `model.BackfillJob`
pub record BackfillJob : Type 0 where
  pub id : Str
  pub kind : BackfillKind
  pub status : Status
  pub total : ℕ
  pub processed : ℕ
  pub succeeded : ℕ
  pub failed_ : ℕ
  pub skipped : ℕ
  pub current_video_id : Str
  pub errors : List BackfillError
  pub started_at : ℕ
  pub finished_at : Option ℕ

abbrev item_id : Option (Str × Str) → Str
item_id none = []
item_id (some (id, _)) = id

abbrev backfill_error : JobItemError → BackfillError
backfill_error e = record { video_id = e.item_id; original_filename = e.item_name; error = e.error }

-- `toBackfillJob`; `none` is the panic of its type assertion.
unfoldable pub to_backfill_job : Job → Option BackfillJob
to_backfill_job j = elim j.meta [
  | kind_meta kind ↦ some (record {
    id = j.id;
    kind = kind;
    status = j.status;
    total = j.total;
    processed = j.processed;
    succeeded = j.succeeded;
    failed_ = j.failed;
    skipped = j.skipped;
    current_video_id = item_id j.current;
    errors = map backfill_error j.errors;
    started_at = j.started_at;
    finished_at = j.finished_at;
  })
  | _ ↦ none
]

-- `model.EnrichJob`
pub record EnrichJob : Type 0 where
  pub id : Str
  pub status : Status
  pub total : ℕ
  pub processed : ℕ
  pub succeeded : ℕ
  pub failed_ : ℕ
  pub current_video_id : Str
  pub started_at : ℕ
  pub finished_at : Option ℕ

unfoldable pub to_enrich_job : Job → EnrichJob
to_enrich_job j = record {
  id = j.id;
  status = j.status;
  total = j.total;
  processed = j.processed;
  succeeded = j.succeeded;
  failed_ = j.failed;
  current_video_id = item_id j.current;
  started_at = j.started_at;
  finished_at = j.finished_at;
}

-- The latest Job, when it is of the kind.
unfoldable pub latest_of : Str → Option Job → Option Job
unfolding eq_str
latest_of kind none = none
latest_of kind (some j) = if not (eq_str j.kind kind) then none else some j

module _ {W : Type 0} where
  -- `ImportService.StartAsync`; `items` is the task of the source's Import Job.
  unfoldable pub start_import :
      (Str → Result MediaSource)
      → (MediaSource → W → W × Result (List (Item W)))
      → Str
      → Str
      → ℕ
      → Runner W
      → Runner W × Result (Option ImportJob)
  start_import get_by_id items source_id id now r = elim (get_by_id source_id) [
    | err e ↦ (r, err (Error.wrap e))
    | ok source ↦
        if not source.enabled
        then (r, err (Error.wrap (Error.sentinel Sentinel.media_source_disabled)))
        else let (after, job) =
            start
              (record { kind = job_kind_import; meta = source_meta source; task = items source }) id
              now r in
          (after, elim job [ err e ↦ err (Error.wrap e) | ok j ↦ ok (to_import_job j) ])
  ]

  -- `ImportService.GetJob`
  unfoldable pub get_job : Str → Runner W → Result (Option ImportJob)
  get_job job_id r = elim (latest_of job_kind_import (latest r)) [
    | none ↦ err (Error.sentinel Sentinel.not_found)
    | some j ↦
        if not (eq_str j.id job_id)
        then err (Error.sentinel Sentinel.not_found)
        else ok (to_import_job j)
  ]

  abbrev pub wrapped_cancel : Runner W × Option Error → Runner W × Option Error
  wrapped_cancel (r, none) = (r, none)
  wrapped_cancel (r, some e) = (r, some (Error.wrap e))

  -- `ImportService.Cancel`
  unfoldable pub cancel_import : Str → Runner W → Runner W × Option Error
  cancel_import job_id r = elim (get_job job_id r) [
    | err e ↦ (r, some (Error.wrap e))
    | ok _ ↦ wrapped_cancel (cancel job_id r)
  ]

  -- `ImportService.GetActiveJob`; the outer `none` is nil.
  unfoldable pub get_active_job : Runner W → Option (Option ImportJob)
  get_active_job r = elim (latest_of job_kind_import (latest r)) [
    | none ↦ none
    | some j ↦ if not (is_running j.status) then none else some (to_import_job j)
  ]

  -- `BackfillRunner.Start`; `task` looks the kind up.
  unfoldable pub start_backfill :
      (BackfillKind → Option (W → W × Result (List (Item W))))
      → BackfillKind
      → Str
      → ℕ
      → Runner W
      → Runner W × Result (Option BackfillJob)
  start_backfill task kind id now r = elim (task kind) [
    | none ↦ (r, err (Error.invalid_param (codes "unknown backfill kind")))
    | some items ↦
        let (after, job) =
          start (record { kind = job_kind_backfill; meta = kind_meta kind; task = items }) id now
            r in
        (after, elim job [ err e ↦ err (Error.wrap e) | ok j ↦ ok (to_backfill_job j) ])
  ]

  -- `BackfillRunner.Active`
  unfoldable pub active_backfill : Runner W → Option (Option BackfillJob)
  active_backfill r = elim (latest_of job_kind_backfill (latest r)) [
    | none ↦ none
    | some j ↦ some (to_backfill_job j)
  ]

  -- `BackfillRunner.Cancel`
  unfoldable pub cancel_backfill : Str → Runner W → Runner W × Option Error
  cancel_backfill job_id r = elim (latest_of job_kind_backfill (latest r)) [
    | none ↦ (r, some (Error.wrap (Error.sentinel Sentinel.not_found)))
    | some j ↦
        if not (eq_str j.id job_id)
        then (r, some (Error.wrap (Error.sentinel Sentinel.not_found)))
        else wrapped_cancel (cancel job_id r)
  ]

  -- `EnrichmentService.StartBatchAsync`
  unfoldable pub start_batch :
      (W → W × Result (List (Item W))) → Str → ℕ → Runner W → Runner W × Result EnrichJob
  start_batch items id now r =
      let (after, job) =
        start (record { kind = job_kind_enrichment; meta = nothing; task = items }) id now r in
      (after, elim job [ err e ↦ err (Error.wrap e) | ok j ↦ ok (to_enrich_job j) ])

  -- `EnrichmentService.ActiveJob`
  unfoldable pub active_batch : Runner W → Option EnrichJob
  active_batch r = elim (latest_of job_kind_enrichment (latest r)) [
    | none ↦ none
    | some j ↦ some (to_enrich_job j)
  ]

  -- `EnrichmentService.CancelBatch`
  unfoldable pub cancel_batch : Str → Runner W → Runner W × Option Error
  cancel_batch job_id r = wrapped_cancel (cancel job_id r)
