-- ===== src/Examples/Jobs.antt =====
-- A Job of one item on a Job Lane, and the services that share the lane.
use vaultflix.Base.{ℕ, ◌+◌, codes, eq_str, true, false, ◌≡◌, none, All, List, [], ◌∷◌, refl}
use vaultflix.Errors.{Result, ok}
use vaultflix.Model.{MediaSource, BackfillKind}
use vaultflix.Jobs.{
  Item, Job, Spec, Runner, start, cancel, advance, new_job, new_runner, Step, Reach, here, extend,
  kind_meta,
}
use vaultflix.Jobs.Invariant.{Inv, Reach-Inv}
use vaultflix.Jobs.Liveness.{run_for, steps_left, lane_freed}
use vaultflix.Jobs.Reports.{
  starts_in, finishes_in, entered, unreported, jobs_started, cancel_starts_entered, finished_once,
}
use vaultflix.Lanes.{job_kind_backfill}
use vaultflix.Lanes.Messages.{import_message, backfill_message}
use vaultflix.Lanes.Messages.Told.{IsTold, IsToldBackfill, sent, messages-IsTold}

abbrev item : Item ℕ
item = record { id = codes "v1"; name = codes "a.mkv"; run = λ w. (w, none) }

abbrev items : ℕ → ℕ × Result (List (Item ℕ))
items w = (w, ok (item ∷ []))

abbrev spec : Spec ℕ
spec = record { kind = job_kind_backfill; meta = kind_meta BackfillKind.codec; task = items }

abbrev fresh : Runner ℕ
fresh = new_runner 0

abbrev started : Runner ℕ
started = (start spec (codes "j1") 3 fresh).0

abbrev listed : Runner ℕ
listed = advance 4 started

abbrev trace : Reach fresh listed
trace = extend (extend here (Step.starts fresh spec (codes "j1") 3)) (Step.advances started 4)

-- a Cancel that comes between the loop's `select` and the start of the item
abbrev stopped : Runner ℕ
stopped = (cancel (codes "j1") (advance 5 listed)).0

finished_once_example : finishes_in listed.reports + unreported listed.phase ≡ jobs_started trace
finished_once_example = finished_once 0 trace

Reach-Inv_example : Inv listed
Reach-Inv_example = Reach-Inv 0 trace

lane_freed_example : (run_for (steps_left listed.phase 5 listed) 5 listed).busy ≡ false
lane_freed_example = lane_freed 5 listed (Reach-Inv 0 trace)

cancel_starts_entered_example :
    starts_in (run_for 3 6 stopped).reports + entered (run_for 3 6 stopped).phase
    ≡ starts_in stopped.reports + entered stopped.phase
unfolding cancel advance start new_runner eq_str
cancel_starts_entered_example = cancel_starts_entered 3 6 stopped refl

abbrev backfill_job : Job
backfill_job = new_job (codes "j1") job_kind_backfill (kind_meta BackfillKind.codec) 3

abbrev disk : MediaSource
disk = record {
  id = codes "s1";
  label = codes "disk";
  mount_path = codes "/mnt/host/d";
  enabled = true;
}

abbrev working : Runner ℕ
working = advance 5 listed

abbrev worked : Runner ℕ
worked = advance 6 working

abbrev longer_trace : Reach fresh worked
longer_trace = extend (extend trace (Step.advances listed 5)) (Step.advances working 6)

messages-IsTold_example :
    All IsTold (sent import_message worked.reports)
    × All IsToldBackfill (sent backfill_message worked.reports)
messages-IsTold_example = messages-IsTold 0 longer_trace
