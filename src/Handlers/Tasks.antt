-- ===== src/Handlers/Tasks.antt =====
-- The handlers of Jobs and of what a player reports: internal/handler/import_job_handler.go,
-- backfill_handler.go, enrichment_handler.go and watch_session_handler.go. Where a Job is an option,
-- `none` stands for the panic of its type assertion.
use vaultflix.Base.{ℕ, Str, codes, Option, none, some, List}
use vaultflix.Errors.{Error, Result, ok, err}
use vaultflix.Model.{BackfillKind}
use vaultflix.Jobs.{Item, Runner}
use vaultflix.Lanes.{
  ImportJob, BackfillJob, EnrichJob, get_job, get_active_job, cancel_import, start_backfill,
  active_backfill, cancel_backfill, start_batch, active_batch, cancel_batch,
}
use vaultflix.Watching.{Heartbeat, record_heartbeat}
use vaultflix.Enrichment.Review.{
  SuggestionOverride, Suggestions, accept_suggestion, reject_suggestion,
}
use vaultflix.Handlers.{Reply, bad_request, refusal, done}

-- the ID and the kind of a started Backfill
abbrev started : Option BackfillJob → Option (Str × BackfillKind)
started none = none
started (some job) = some (job.id, job.kind)

module _ {W : Type 0} where
  -- `GetImportJob`
  unfoldable pub get_import_job : Str → Runner W → Reply (Option ImportJob)
  get_import_job job_id r = elim (get_job job_id r) [
    | err e ↦ refusal e (codes "get import job")
    | ok job ↦ Reply.replied 200 job
  ]

  -- `GetActiveImportJob`; the outer `none` is nil.
  unfoldable pub get_active_import_job : Runner W → Reply (Option (Option ImportJob))
  get_active_import_job r = Reply.replied 200 (get_active_job r)

  -- `CancelImportJob`
  unfoldable pub cancel_import_job : Str → Runner W → Runner W × Reply Unit
  cancel_import_job job_id r =
      done Reply.no_content (codes "cancel import job") (cancel_import job_id r)

  -- what `Start` of a `BackfillHandler` answers
  abbrev start_reply :
      Runner W × Result (Option BackfillJob) → Runner W × Reply (Option (Str × BackfillKind))
  start_reply (r, err e) = (r, refusal e (codes "start backfill"))
  start_reply (r, ok job) = (r, Reply.replied 202 (started job))

  -- `BackfillHandler.Start`; the kind is `none` where the body could not be bound.
  unfoldable pub start_backfill_job :
      (BackfillKind → Option (W → W × Result (List (Item W))))
      → Option BackfillKind
      → Str
      → ℕ
      → Runner W
      → Runner W × Reply (Option (Str × BackfillKind))
  start_backfill_job task body id now r = elim body [
    | none ↦ (r, bad_request (codes "kind is required"))
    | some kind ↦ start_reply (start_backfill task kind id now r)
  ]

  -- `BackfillHandler.GetActive`
  unfoldable pub get_active_backfill : Runner W → Reply (Option (Option BackfillJob))
  get_active_backfill r = Reply.replied 200 (active_backfill r)

  -- `BackfillHandler.Cancel`
  unfoldable pub cancel_backfill_job : Str → Runner W → Runner W × Reply Unit
  cancel_backfill_job job_id r =
      done Reply.no_content (codes "cancel backfill") (cancel_backfill job_id r)

  -- `ActiveJob` of an `EnrichmentHandler`
  unfoldable pub active_enrichment : Runner W → Reply (Option EnrichJob)
  active_enrichment r = Reply.replied 200 (active_batch r)

  -- `CancelBatch` of an `EnrichmentHandler`
  unfoldable pub cancel_enrichment : Str → Runner W → Runner W × Reply Unit
  cancel_enrichment job_id r =
      done Reply.no_content (codes "cancel enrichment job") (cancel_batch job_id r)

  abbrev batch_reply : Runner W × Result EnrichJob → Runner W × Reply Str
  batch_reply (r, err e) = (r, refusal e (codes "start batch enrichment"))
  batch_reply (r, ok job) = (r, Reply.replied 202 job.id)

  -- `StartBatch`; the body, whose absence binds as zeros, is `none` where it is malformed, and
  -- else the items of the batch that it asks for.
  unfoldable pub start_enrichment :
      Option (W → W × Result (List (Item W))) → Str → ℕ → Runner W → Runner W × Reply Str
  start_enrichment body id now r = elim body [
    | none ↦ (r, bad_request (codes "request body is not valid JSON"))
    | some items ↦ batch_reply (start_batch items id now r)
  ]

module _ {D : Type 0} where
  -- `EnrichVideo`, of the service's operation for one Video and user
  unfoldable pub enrich_one_video :
      (Str → Str → D → D × Option Error) → Str → Str → D → D × Reply Str
  enrich_one_video enrich id user_id d =
      done (Reply.replied 202 id) (codes "enrich video") (enrich id user_id d)

  -- `AcceptSuggestion`; the override is empty without a body, and `none` where it is malformed.
  unfoldable pub accept_one :
      Suggestions D → Str → Str → Option SuggestionOverride → D → D × Reply Str
  accept_one repo id sid body d = elim body [
    | none ↦ (d, bad_request (codes "request body is not valid JSON"))
    | some override ↦
        done (Reply.replied 200 (codes "accepted")) (codes "accept suggestion")
          (accept_suggestion repo id sid override d)
  ]

  -- `RejectSuggestion`
  unfoldable pub reject_one : Suggestions D → Str → Str → D → D × Reply Unit
  reject_one repo id sid d =
      done Reply.no_content (codes "reject suggestion") (reject_suggestion repo id sid d)

  -- `WatchSessionHandler.Heartbeat`; the body is a heartbeat without its user.
  unfoldable pub heartbeat :
      (Heartbeat → D → D × Option Error) → Str → Option Heartbeat → D → D × Reply Unit
  heartbeat upsert user_id body d = elim body [
    | none ↦ (d, bad_request (codes "session_id and video_id are required"))
    | some h ↦
        done Reply.no_content (codes "record heartbeat")
          (record_heartbeat upsert (record h { user_id = user_id }) d)
  ]
