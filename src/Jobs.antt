-- ===== src/Jobs.antt =====
-- The Job Lane: `JobRunner` and the goroutine of the Job that it runs
-- (internal/service/job_runner.go). Each critical section under `r.mu`, together with the report
-- that follows it, is one step, and so is the `select` on the channel of a Cancel, which takes no
-- lock. The goroutine is a program counter, `Phase`, and its steps interleave freely with `start`,
-- `cancel` and `latest`, which other goroutines call.
pub mod Invariant
pub mod Liveness
pub mod Reports
pub mod Counted
use vaultflix.Base.{
  ℕ, zero, suc, ◌+◌, Str, eq_str, Bool, true, false, not, if◌then◌else◌, Option, none, some, List,
  [], ◌∷◌, ◌++◌, length,
}
use vaultflix.Errors.{Sentinel, Error, is, Result, ok, err}
use vaultflix.Model.{MediaSource, BackfillKind}

pub data Status : Type 0 where
  running completed failed cancelled : Status

-- `JobSpec.Meta`: what the starter reads back.
pub data Meta : Type 0 where
  nothing : Meta
  source_meta : MediaSource → Meta
  kind_meta : BackfillKind → Meta

-- `JobItem`: `W` is the world that the items work on.
pub record Item (W : Type 0) : Type 0 where
  pub id : Str
  pub name : Str
  pub run : W → W × Option Error

-- `JobItemError`: the error stands for its text.
pub record JobItemError : Type 0 where
  pub item_id : Str
  pub item_name : Str
  pub error : Error

-- `Job`; `current` is the ID and name of the item in progress, `none` when idle, and `list_error`
-- the error that listing returned.
pub record Job : Type 0 where
  pub id : Str
  pub kind : Str
  pub meta : Meta
  pub status : Status
  pub total : ℕ
  pub processed : ℕ
  pub succeeded : ℕ
  pub skipped : ℕ
  pub failed : ℕ
  pub current : Option (Str × Str)
  pub errors : List JobItemError
  pub list_error : Option Error
  pub started_at : ℕ
  pub finished_at : Option ℕ

-- The calls of the `JobReporter`; an item is its ID and name.
pub data Report : Type 0 where
  item_started : Job → Str × Str → ℕ → Report
  item_done : Job → Str × Str → ℕ → Option Error → Report
  listing_failed : Job → Error → Report
  finished : Job → Report

-- `JobSpec`, its reporter left out: reports are recorded.
pub record Spec (W : Type 0) : Type 0 where
  pub kind : Str
  pub meta : Meta
  pub task : W → W × Result (List (Item W))

-- Where the Job's goroutine stands. `looping its i`: before the `select` of an item, `i` items
-- done. `entering it its i`: that `select` found no Cancel, and the critical section that names the
-- item is next. `working it its i`: `it.Run` is next. `finishing end`: `finish` is next. `freeing job`: its
-- last critical section is next.
pub data Phase (W : Type 0) : Type 0 where
  idle : Phase W
  listing : Spec W → Phase W
  looping : List (Item W) → ℕ → Phase W
  entering : Item W → List (Item W) → ℕ → Phase W
  working : Item W → List (Item W) → ℕ → Phase W
  finishing : Status → Phase W
  freeing : Job → Phase W

pub record Runner (W : Type 0) : Type 0 where
  pub latest : Option Job
  pub busy : Bool
  pub cancel_closed : Bool
  pub phase : Phase W
  pub reports : List Report
  pub world : W

-- `cloneJob` copies every field, and the errors only when asked.
unfoldable pub clone_job : Job → Bool → Job
clone_job j with_errors = record j { errors = if with_errors then j.errors else [] }

-- What `start` gives the new Job.
abbrev pub new_job : Str → Str → Meta → ℕ → Job
new_job id kind meta now = record {
  id = id;
  kind = kind;
  meta = meta;
  status = running;
  total = 0;
  processed = 0;
  succeeded = 0;
  skipped = 0;
  failed = 0;
  current = none;
  errors = [];
  list_error = none;
  started_at = now;
  finished_at = none;
}

abbrev pub latest_kind : Option Job → Str
latest_kind none = []
latest_kind (some j) = j.kind

abbrev is_running : Status → Bool
is_running running = true
is_running _ = false

-- The outcome of one item in the counters: the `switch` of `runItem`.
unfoldable pub record_outcome : ℕ → Str → Str → Option Error → Job → Job
record_outcome current id name none j = record j {
  processed = current;
  succeeded = j.succeeded + 1;
}
record_outcome current id name (some e) j =
    if is Sentinel.job_item_skipped e
    then record j { processed = current; skipped = j.skipped + 1 }
    else record j {
      processed = current;
      failed = j.failed + 1;
      errors = j.errors ++ (record { item_id = id; item_name = name; error = e } ∷ []);
    }

module _ {W : Type 0} where
  -- `id` is the fresh UUID, `now` the time.
  unfoldable pub start : Spec W → Str → ℕ → Runner W → Runner W × Result Job
  unfolding clone_job
  start spec id now r =
      if r.busy
      then (r, err (Error.lane_busy (latest_kind r.latest)))
      else let job = new_job id spec.kind spec.meta now in
        (
          record r { latest = some job; busy = true; cancel_closed = false; phase = listing spec },
          ok (clone_job job true),
        )

  unfoldable pub latest : Runner W → Option Job
  unfolding clone_job
  latest r = elim r.latest [ none ↦ none | some j ↦ some (clone_job j true) ]

  unfoldable pub cancel : Str → Runner W → Runner W × Option Error
  cancel job_id r = elim r.latest [
    | none ↦ (r, some (Error.sentinel Sentinel.not_found))
    | some j ↦
        if not (eq_str j.id job_id)
        then (r, some (Error.sentinel Sentinel.not_found))
        else if not (is_running j.status)
        then (r, none)
        else (record r { cancel_closed = true }, none)
  ]

  -- One step of the goroutine whose Job is `j`.
  pub advance_at : Phase W → Job → ℕ → Runner W → Runner W
  unfolding clone_job record_outcome
  advance_at idle j now r = r
  advance_at (listing spec) j now r =
      let (w, listed) = spec.task r.world in
      elim listed [
        | err e ↦
            let j' = record j { list_error = some e } in
            record r {
              latest = some j';
              world = w;
              reports =
                  r.reports
                  ++ (listing_failed (record (clone_job j' false) { status = failed }) e ∷ []);
              phase = finishing failed;
            }
        | ok items ↦ record r {
          latest = some (record j { total = length items });
          world = w;
          phase = looping items 0;
        }
      ]
  advance_at (looping [] i) j now r = record r { phase = finishing completed }
  advance_at (looping (it ∷ its) i) j now r =
      if r.cancel_closed
      then record r { phase = finishing cancelled }
      else record r { phase = entering it its i }
  advance_at (entering it its i) j now r =
      let j' = record j { current = some (it.id, it.name) } in
      record r {
        latest = some j';
        reports = r.reports ++ (item_started (clone_job j' false) (it.id, it.name) (suc i) ∷ []);
        phase = working it its i;
      }
  advance_at (working it its i) j now r =
      let (w, e) = it.run r.world in
      let j' = record_outcome (suc i) it.id it.name e j in
      record r {
        latest = some j';
        world = w;
        reports = r.reports ++ (item_done (clone_job j' false) (it.id, it.name) (suc i) e ∷ []);
        phase = looping its (suc i);
      }
  advance_at (finishing end) j now r =
      let final = record (clone_job j true) {
        finished_at = some now;
        current = none;
        status = end;
      } in
      record r { reports = r.reports ++ (finished final ∷ []); phase = freeing final }
  advance_at (freeing final) j now r = record r {
    latest =
        some (record j { finished_at = final.finished_at; current = none; status = final.status });
    busy = false;
    phase = idle;
  }

  unfoldable pub advance : ℕ → Runner W → Runner W
  unfolding advance_at
  advance now r = elim r.latest [ none ↦ r | some j ↦ advance_at r.phase j now r ]

  -- `NewJobRunner`, in the world `w`.
  unfoldable pub new_runner : W → Runner W
  new_runner w = record {
    latest = none;
    busy = false;
    cancel_closed = false;
    phase = idle;
    reports = [];
    world = w;
  }

  -- What the goroutine and its callers do, in any order.
  pub data Step : Runner W → Runner W → Type 0 where
    starts : (r : Runner W) (spec : Spec W) (id : Str) (now : ℕ) → Step r (start spec id now r).0
    cancels : (r : Runner W) (id : Str) → Step r (cancel id r).0
    advances : (r : Runner W) (now : ℕ) → Step r (advance now r)

  pub data Reach (r : Runner W) : Runner W → Type 0 where
    here : Reach r r
    extend : {s t : Runner W} → Reach r s → Step s t → Reach r t
