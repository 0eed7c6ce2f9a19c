-- ===== src/Lanes/Messages/Told.antt =====
-- What the messages of Import and Backfill Jobs count.
use vaultflix.Base.{
  ◌+◌, ◌≤◌, ◌<◌, Option, none, some, List, [], ◌∷◌, All, ◌≡◌, ◌⊎◌, arith, Option-cases, inl, inr,
}
use vaultflix.Jobs.{
  completed, Runner, Report, item_started, item_done, listing_failed, finished, new_runner, Reach,
}
use vaultflix.Jobs.Counted.{IsCounted, Reach-IsCounted}
use vaultflix.Lanes.{import_status, to_import_job, to_backfill_job}
use vaultflix.Lanes.Messages.{
  ImportMessage, import_progress, import_error, import_complete, BackfillMessage, backfill_progress,
  backfill_error, backfill_complete, processing, import_message, backfill_message, progress,
  backfill_done, kind_of,
}

-- The messages that a lane's reports become.
module _ {M : Type 0} (message : Report → Option M) where
  and_sent : Option M → List M → List M
  and_sent none ms = ms
  and_sent (some m) ms = m ∷ ms

  pub sent : List Report → List M
  sent [] = []
  sent (x ∷ rs) = and_sent (message x) (sent rs)

  All-sent :
      (P : M → Type 0)
      → ((x : Report) (m : M) → IsCounted x → message x ≡ some m → P m)
      → (rs : List Report) → All IsCounted rs
      → All P (sent rs)
  unfolding sent and_sent
  All-sent P f [] a = tt
  All-sent P f (x ∷ rs) (h, a) = elim (Option-cases (message x)) [
    | inl e ↦ rw e (All-sent P f rs a)
    | inr (m, e) ↦ rw e (f x m h e, All-sent P f rs a)
  ]

-- The counters of an Import Job's messages add up.
pub IsTold : ImportMessage → Type 0
IsTold (import_progress p) =
    (p.current ≤ p.total)
    × ((p.status ≡ processing) ⊎ (p.imported + p.skipped_ + p.failed ≡ p.current))
IsTold (import_error id e) = Unit
IsTold (import_complete j) =
    (j.imported + j.skipped + j.failed_ ≡ j.processed)
    × (j.processed ≤ j.total)
    × (j.status ≡ completed → (j.processed ≡ j.total) × ((j.failed_ ≡ 0) ⊎ (0 < j.imported)))

pub IsToldBackfill : BackfillMessage → Type 0
IsToldBackfill (backfill_progress p) =
    (p.current ≤ p.total)
    × ((p.status ≡ processing) ⊎ (p.succeeded + p.skipped_ + p.failed ≡ p.current))
IsToldBackfill (backfill_error id k e) = Unit
IsToldBackfill (backfill_complete j) =
    (j.succeeded + j.skipped + j.failed_ ≡ j.processed)
    × (j.processed ≤ j.total)
    × (j.status ≡ completed → j.processed ≡ j.total)

told : (x : Report) (m : ImportMessage) → IsCounted x → import_message x ≡ some m → IsTold m
unfolding import_message to_import_job import_status IsCounted IsTold
told (item_started j it n) m h e = ground arith
told (item_done j it n x) m h e = ground arith
told (listing_failed j x) m h e = ground arith
told (finished j) m h e = ground arith

told_backfill :
    (x : Report) (m : BackfillMessage)
    → IsCounted x
    → backfill_message x ≡ some m
    → IsToldBackfill m
unfolding backfill_message to_backfill_job progress backfill_done kind_of IsCounted IsToldBackfill
told_backfill (item_started j it n) m h e = ground arith
told_backfill (item_done j it n x) m h e = ground arith
told_backfill (listing_failed j x) m h e = ground arith
told_backfill (finished j) m h e = ground arith

-- Over every run of a lane, the counters of each message of an Import or Backfill Job add up: those
-- of an item that is done to its number, which is at most the total, and those of a Job that has
-- ended to the items processed. A Job that is told as completed has processed all its items, and
-- an Import Job that is told so has not failed for any of them, or has imported one.
pub messages-IsTold :
    {W : Type 0} (w : W) {r : Runner W}
    → Reach (new_runner w) r
    → All IsTold (sent import_message r.reports)
      × All IsToldBackfill (sent backfill_message r.reports)
messages-IsTold w p = (
  All-sent import_message IsTold told _ (Reach-IsCounted w p),
  All-sent backfill_message IsToldBackfill told_backfill _ (Reach-IsCounted w p),
)
