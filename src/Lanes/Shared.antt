-- ===== src/Lanes/Shared.antt =====
-- Import and Backfill Jobs on the lane that they share.
use vaultflix.Base.{
  ℕ, Str, eq_str, eq_str_iff, eq_str_refl, true, false, Bool-cases, Option, none, some, List, ◌≡◌,
  ◌≢◌, inl, inr, refl, ap, ◌∙◌,
}
use vaultflix.Errors.{Sentinel, Error, is, Result, ok, err}
use vaultflix.Model.{BackfillKind, MediaSource}
use vaultflix.Jobs.{Item, Job, Runner, start, latest, latest_kind, clone_job}
use vaultflix.Lanes.{
  job_kind_import, job_kind_backfill, ImportJob, to_import_job, latest_of, start_import, get_job,
  cancel_import, start_backfill, cancel_backfill,
}

of_kind :
    (kind : Str) (j : Job)
    → eq_str j.kind kind ≡ false
    → latest_of kind (some (clone_job j true)) ≡ none
unfolding latest_of clone_job
of_kind kind j e = rw e refl

module _ {W : Type 0} where
  latest-some : (r : Runner W) (j : Job) → r.latest ≡ some j → latest r ≡ some (clone_job j true)
  unfolding latest
  latest-some r j h = ap (λ o. elim o [ none ↦ none | some i ↦ some (clone_job i true) ]) h

  latest_of-other :
      (kind : Str) (r : Runner W) (j : Job)
      → r.latest ≡ some j
      → j.kind ≢ kind
      → latest_of kind (latest r) ≡ none
  latest_of-other kind r j h k = elim (Bool-cases (eq_str j.kind kind)) [
    | inl e ↦ absurd (k ((eq_str_iff j.kind kind).0 e))
    | inr e ↦ ap (latest_of kind) (latest-some r j h) ∙ of_kind kind j e
  ]

  -- A cancellation through the Import service while the latest Job of the lane is of another kind
  -- is refused as not found and changes nothing; so a Backfill Job is never stopped that way.
  pub cancel_import-other :
      (job_id : Str) (r : Runner W) (j : Job)
      → r.latest ≡ some j
      → j.kind ≢ job_kind_import
      → ((cancel_import job_id r).0 ≡ r)
        × ((e : Error) × ((cancel_import job_id r).1 ≡ some e) × (is Sentinel.not_found e ≡ true))
  unfolding is cancel_import get_job
  cancel_import-other job_id r j h k =
      let q = latest_of-other job_kind_import r j h k in
      (
        rw (cancel_import, get_job, q) refl,
        (Error.wrap (Error.sentinel Sentinel.not_found), rw (cancel_import, get_job, q) refl, refl),
      )

  -- The same for the Backfill runner and an Import Job.
  pub cancel_backfill-other :
      (job_id : Str) (r : Runner W) (j : Job)
      → r.latest ≡ some j
      → j.kind ≢ job_kind_backfill
      → ((cancel_backfill job_id r).0 ≡ r)
        × ((e : Error) × ((cancel_backfill job_id r).1 ≡ some e) × (is Sentinel.not_found e ≡ true))
  unfolding is cancel_backfill
  cancel_backfill-other job_id r j h k =
      let q = latest_of-other job_kind_backfill r j h k in
      (
        rw (cancel_backfill, q) refl,
        (Error.wrap (Error.sentinel Sentinel.not_found), rw (cancel_backfill, q) refl, refl),
      )

  -- On a free lane an Import of an enabled Media Source starts a Job that can be read at once under
  -- its id, and what is read is the snapshot that the start returned.
  pub get_job-start_import :
      (get_by_id : Str → Result MediaSource) (items : MediaSource → W → W × Result (List (Item W)))
      (source_id id : Str) (now : ℕ) (r : Runner W) (source : MediaSource)
      → get_by_id source_id ≡ ok source
      → source.enabled ≡ true
      → r.busy ≡ false
      → let (after, started) = start_import get_by_id items source_id id now r in
        (job : ImportJob) × (started ≡ ok (some job))
        × (job.id ≡ id)
        × (job.source_id ≡ source.id)
        × (get_job id after ≡ ok (some job))
        × (after.busy ≡ true)
  unfolding start_import get_job latest_of latest start clone_job to_import_job
  get_job-start_import get_by_id items source_id id now r source g e b =
      rw (start_import, g, e, start, b) (_, refl, refl, refl, rw (eq_str_refl id) refl, refl)

  -- While the lane is busy neither an Import of an enabled Media Source nor a Backfill of a known
  -- kind starts: the lane stays as it is and the error
  -- names the kind of the Job that holds it.
  pub start-busy :
      (get_by_id : Str → Result MediaSource) (items : MediaSource → W → W × Result (List (Item W)))
      (task : BackfillKind → Option (W → W × Result (List (Item W))))
      (backfill : W → W × Result (List (Item W))) (source_id id : Str) (kind : BackfillKind)
      (now : ℕ) (r : Runner W) (source : MediaSource)
      → get_by_id source_id ≡ ok source
      → source.enabled ≡ true
      → task kind ≡ some backfill
      → r.busy ≡ true
      → (start_import get_by_id items source_id id now r
          ≡ (r, err (Error.wrap (Error.lane_busy (latest_kind r.latest)))))
        × (start_backfill task kind id now r
            ≡ (r, err (Error.wrap (Error.lane_busy (latest_kind r.latest)))))
  unfolding start_import start start_backfill
  start-busy get_by_id items task backfill source_id id kind now r source g e t b =
      (rw (start_import, g, e, start, b) refl, rw (start_backfill, t, start, b) refl)
