-- ===== src/Jobs/Reports.antt =====
-- The reports of the Jobs of internal/service/job_runner.go, counted.
use vaultflix.Base.{
  ℕ, zero, suc, ◌+◌, Str, Bool, true, false, if◌then◌else◌, Option, none, some, List, [], ◌∷◌, ◌++◌,
  ◌≡◌, arith, refl, ◌∙◌, inl, inr, Option-cases,
}
use vaultflix.Jobs.{
  Job, Spec, Phase, idle, listing, looping, entering, working, finishing, freeing, Runner, Report,
  item_started, item_done, listing_failed, finished, start, cancel, new_runner, starts, cancels,
  advances, Reach, here, extend, advance, advance_at,
}
use vaultflix.Jobs.Invariant.{Inv, PhaseInv, Reach-Inv, advance-some, advance-none, Result-cases}
use vaultflix.Jobs.Liveness.{run_for}

-- How many items have been started, and how many Jobs have reported their end.
unfoldable pub starts_in : List Report → ℕ
starts_in [] = 0
starts_in (item_started j it n ∷ rs) = suc (starts_in rs)
starts_in (_ ∷ rs) = starts_in rs

unfoldable pub finishes_in : List Report → ℕ
finishes_in [] = 0
finishes_in (finished j ∷ rs) = suc (finishes_in rs)
finishes_in (_ ∷ rs) = finishes_in rs

starts_in-append :
    (rs : List Report) (x : Report) → starts_in (rs ++ x ∷ []) ≡ starts_in rs + starts_in (x ∷ [])
unfolding starts_in
starts_in-append [] x = omega arith
starts_in-append (item_started j it n ∷ rs) x = omega (arith, starts_in-append rs x)
starts_in-append (item_done j it n e ∷ rs) x = starts_in-append rs x
starts_in-append (listing_failed j e ∷ rs) x = starts_in-append rs x
starts_in-append (finished j ∷ rs) x = starts_in-append rs x

finishes_in-append :
    (rs : List Report) (x : Report)
    → finishes_in (rs ++ x ∷ []) ≡ finishes_in rs + finishes_in (x ∷ [])
unfolding finishes_in
finishes_in-append [] x = omega arith
finishes_in-append (item_started j it n ∷ rs) x = finishes_in-append rs x
finishes_in-append (item_done j it n e ∷ rs) x = finishes_in-append rs x
finishes_in-append (listing_failed j e ∷ rs) x = finishes_in-append rs x
finishes_in-append (finished j ∷ rs) x = omega (arith, finishes_in-append rs x)

module _ {W : Type 0} where
  -- An item that the loop has let through and that is still to be started.
  abbrev pub entered : Phase W → ℕ
  entered (entering it its i) = 1
  entered _ = 0

  Stopped : Runner W → ℕ → Type 0
  Stopped r n = (r.cancel_closed ≡ true) × (starts_in r.reports + entered r.phase ≡ n)

  advance_at-Stopped :
      (p : Phase W) (j : Job) (now : ℕ) (r : Runner W) (n : ℕ)
      → r.phase ≡ p
      → Stopped r n
      → Stopped (advance_at p j now r) n
  unfolding advance_at starts_in Stopped
  advance_at-Stopped idle j now r n q h = h
  advance_at-Stopped (listing spec) j now r n q h = elim (Result-cases (spec.task r.world).1) [
    | inl (items, e) ↦ ground arith
    | inr (x, e) ↦ grind (arith, starts_in-append)
  ]
  advance_at-Stopped (looping [] i) j now r n q h = ground arith
  advance_at-Stopped (looping (it ∷ its) i) j now r n q h = ground arith
  advance_at-Stopped (entering it its i) j now r n q h = grind (arith, starts_in-append)
  advance_at-Stopped (working it its i) j now r n q h = grind (arith, starts_in-append)
  advance_at-Stopped (finishing end) j now r n q h = grind (arith, starts_in-append)
  advance_at-Stopped (freeing final) j now r n q h = ground arith

  advance-Stopped : (now : ℕ) (r : Runner W) (n : ℕ) → Stopped r n → Stopped (advance now r) n
  advance-Stopped now r n h = elim (Option-cases r.latest) [
    | inl e ↦ rw (advance-none now r e) h
    | inr (j, e) ↦ rw (advance-some now r j e) (advance_at-Stopped r.phase j now r n refl h)
  ]

  run_for-Stopped : (k now : ℕ) (r : Runner W) (n : ℕ) → Stopped r n → Stopped (run_for k now r) n
  unfolding run_for
  run_for-Stopped zero now r n h = h
  run_for-Stopped (suc k) now r n h =
      run_for-Stopped k now (advance now r) n (advance-Stopped now r n h)

  -- Once a Cancel has closed the channel, the Job starts no further item, however far it runs, but
  -- the one that the loop's `select` had already let through: there is at most that one, and it is
  -- the only one counted.
  pub cancel_starts_entered :
      (k now : ℕ) (r : Runner W)
      → r.cancel_closed ≡ true
      → starts_in (run_for k now r).reports + entered (run_for k now r).phase
        ≡ starts_in r.reports + entered r.phase
  unfolding Stopped
  cancel_starts_entered k now r h =
      (run_for-Stopped k now r (starts_in r.reports + entered r.phase) (h, refl)).1

  -- A Job that has not yet reported its end.
  abbrev pub unreported : Phase W → ℕ
  unreported idle = 0
  unreported (freeing final) = 0
  unreported _ = 1

  -- The Jobs that a run has started: the starts that were not refused.
  pub jobs_started : {r s : Runner W} → Reach r s → ℕ
  jobs_started here = 0
  jobs_started (extend p (starts r spec id now)) =
      if r.busy then jobs_started p else suc (jobs_started p)
  jobs_started (extend p (cancels r id)) = jobs_started p
  jobs_started (extend p (advances r now)) = jobs_started p

  advance_at-finishes :
      (p : Phase W) (j : Job) (now : ℕ) (r : Runner W)
      → r.phase ≡ p
      → finishes_in (advance_at p j now r).reports + unreported (advance_at p j now r).phase
        ≡ finishes_in r.reports + unreported p
  unfolding advance_at finishes_in
  advance_at-finishes idle j now r h = ground arith
  advance_at-finishes (listing spec) j now r h = elim (Result-cases (spec.task r.world).1) [
    | inl (items, e) ↦ ground arith
    | inr (x, e) ↦ grind (arith, finishes_in-append)
  ]
  advance_at-finishes (looping [] i) j now r h = ground arith
  advance_at-finishes (looping (it ∷ its) i) j now r h = ground arith
  advance_at-finishes (entering it its i) j now r h = grind (arith, finishes_in-append)
  advance_at-finishes (working it its i) j now r h = grind (arith, finishes_in-append)
  advance_at-finishes (finishing end) j now r h = grind (arith, finishes_in-append)
  advance_at-finishes (freeing final) j now r h = ground arith

  free_reported :
      (p : Phase W) (o : Option Job) (busy : Bool)
      → PhaseInv p o busy
      → busy ≡ false
      → unreported p ≡ 0
  free_reported idle o busy h e = refl
  free_reported (freeing final) o busy h e = refl
  free_reported (listing spec) none busy h e = absurd h
  free_reported (looping its i) none busy h e = absurd h
  free_reported (entering it its i) none busy h e = absurd h
  free_reported (working it its i) none busy h e = absurd h
  free_reported (finishing end) none busy h e = absurd h
  free_reported (listing spec) (some j) busy h e = cc (h.0)
  free_reported (looping its i) (some j) busy h e = cc (h.0)
  free_reported (entering it its i) (some j) busy h e = cc (h.0)
  free_reported (working it its i) (some j) busy h e = cc (h.0)
  free_reported (finishing end) (some j) busy h e = cc (h.0)

  advance-finishes :
      (now : ℕ) (r : Runner W)
      → finishes_in (advance now r).reports + unreported (advance now r).phase
        ≡ finishes_in r.reports + unreported r.phase
  advance-finishes now r = elim (Option-cases r.latest) [
    | inl e ↦ rw (advance-none now r e)
    | inr (j, e) ↦ rw (advance-some now r j e) (advance_at-finishes r.phase j now r refl)
  ]

  cancel-finishes :
      (id : Str) (r : Runner W)
      → finishes_in (cancel id r).0.reports + unreported (cancel id r).0.phase
        ≡ finishes_in r.reports + unreported r.phase
  unfolding cancel
  cancel-finishes id r = ground arith

  start-finishes :
      (spec : Spec W) (id : Str) (now : ℕ) (r : Runner W)
      → Inv r
      → finishes_in (start spec id now r).0.reports + unreported (start spec id now r).0.phase
        ≡ finishes_in r.reports + unreported r.phase + (if r.busy then 0 else 1)
  unfolding start
  start-finishes spec id now r v = ground (arith, free_reported r.phase r.latest r.busy v.phase)

  -- From a new runner on, whatever is started and cancelled in between: the Jobs that have
  -- reported their end, and the one that has yet to, are the Jobs started. No Job reports its end
  -- twice, and no Job starts before the one before it has reported.
  pub finished_once :
      (w : W) {r : Runner W} (p : Reach (new_runner w) r)
      → finishes_in r.reports + unreported r.phase ≡ jobs_started p
  unfolding jobs_started new_runner finishes_in
  finished_once w here = refl
  finished_once w (extend p (starts r spec id now)) =
      ground (arith, finished_once w p, start-finishes spec id now r (Reach-Inv w p))
  finished_once w (extend p (cancels r id)) = cancel-finishes id r ∙ finished_once w p
  finished_once w (extend p (advances r now)) = advance-finishes now r ∙ finished_once w p
