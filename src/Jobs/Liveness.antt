-- ===== src/Jobs/Liveness.antt =====
-- The steps that a Job of internal/service/job_runner.go takes to its end.
use mathlib.Core.Path.{subst}
use vaultflix.Base.{
  ℕ, zero, suc, ◌+◌, ◌*◌, ◌≤◌, Bool, true, false, Option, none, some, [], ◌∷◌, length, ◌≡◌, ◌≢◌,
  arith, refl, sym, inl, inr, Option-cases,
}
use vaultflix.Jobs.{
  Job, Spec, Phase, idle, listing, looping, entering, working, finishing, freeing, Runner, advance,
  advance_at,
}
use vaultflix.Jobs.Invariant.{Inv, PhaseInv, advance-Inv, advance-some, advance-none, Result-cases}

busy_free :
    (W : Type 0) (o : Option Job) (busy : Bool) → PhaseInv {W = W} idle o busy → busy ≡ false
busy_free W none busy h = h
busy_free W (some j) busy h = h.0

module _ {W : Type 0} where
  -- The goroutine alone, for so many steps.
  unfoldable pub run_for : ℕ → ℕ → Runner W → Runner W
  run_for zero now r = r
  run_for (suc n) now r = run_for n now (advance now r)

  -- The steps left once the items are listed.
  pub left : Phase W → ℕ
  left idle = 0
  left (listing spec) = 0
  left (looping its i) = 3 * length its + 3
  left (entering it its i) = 3 * length its + 5
  left (working it its i) = 3 * length its + 4
  left (finishing end) = 2
  left (freeing final) = 1

  abbrev is_listing : Phase W → Bool
  is_listing (listing spec) = true
  is_listing _ = false

  -- A step of a listed Job uses up one of the steps left.
  left-advance_at :
      (p : Phase W) (j : Job) (now : ℕ) (r : Runner W) (n : ℕ)
      → is_listing p ≡ false
      → r.phase ≡ p
      → left p ≤ suc n
      → (left (advance_at p j now r).phase ≤ n) × (is_listing (advance_at p j now r).phase ≡ false)
  unfolding advance_at left
  left-advance_at idle j now r n l e h = ground arith
  left-advance_at (listing spec) j now r n l e h = ground arith
  left-advance_at (looping [] i) j now r n l e h = ground arith
  left-advance_at (looping (it ∷ its) i) j now r n l e h = ground arith
  left-advance_at (entering it its i) j now r n l e h = ground arith
  left-advance_at (working it its i) j now r n l e h = ground arith
  left-advance_at (finishing end) j now r n l e h = ground arith
  left-advance_at (freeing final) j now r n l e h = ground arith

  idle_of_no_job : (p : Phase W) (busy : Bool) → PhaseInv p none busy → p ≡ idle
  idle_of_no_job idle busy h = refl
  idle_of_no_job (listing spec) busy h = absurd h
  idle_of_no_job (looping its i) busy h = absurd h
  idle_of_no_job (entering it its i) busy h = absurd h
  idle_of_no_job (working it its i) busy h = absurd h
  idle_of_no_job (finishing end) busy h = absurd h
  idle_of_no_job (freeing final) busy h = absurd h

  left-advance :
      (now : ℕ) (r : Runner W) (n : ℕ)
      → Inv r
      → is_listing r.phase ≡ false
      → left r.phase ≤ suc n
      → (left (advance now r).phase ≤ n) × (is_listing (advance now r).phase ≡ false)
  unfolding left
  left-advance now r n v l h = elim (Option-cases r.latest) [
    | inl e ↦
        let i = idle_of_no_job r.phase r.busy (subst (λ o. PhaseInv r.phase o r.busy) e v.phase) in
        ground (arith, advance-none now r e)
    | inr (j, e) ↦
        subst (λ s. (left s.phase ≤ n) × (is_listing s.phase ≡ false))
          (sym (advance-some now r j e)) (left-advance_at r.phase j now r n l refl h)
  ]

  idle_of_left : (p : Phase W) → is_listing p ≡ false → left p ≤ 0 → p ≡ idle
  unfolding left
  idle_of_left idle l h = refl
  idle_of_left (listing spec) l h = cc
  idle_of_left (looping its i) l h = absurd (omega arith)
  idle_of_left (entering it its i) l h = absurd (omega arith)
  idle_of_left (working it its i) l h = absurd (omega arith)
  idle_of_left (finishing end) l h = absurd (omega arith)
  idle_of_left (freeing final) l h = absurd (omega arith)

  run_for-idle :
      (n now : ℕ) (r : Runner W)
      → Inv r
      → is_listing r.phase ≡ false
      → left r.phase ≤ n
      → ((run_for n now r).phase ≡ idle) × Inv (run_for n now r)
  unfolding run_for
  run_for-idle zero now r v l h = (idle_of_left r.phase l h, v)
  run_for-idle (suc n) now r v l h =
      let (less, listed) = left-advance now r n v l h in
      run_for-idle n now (advance now r) (advance-Inv now r v) listed less

  not_busy : (r : Runner W) → Inv r → r.phase ≡ idle → r.busy ≡ false
  not_busy r v e = busy_free W r.latest r.busy (subst (λ p. PhaseInv p r.latest r.busy) e v.phase)

  job_when_listing :
      (spec : Spec W) (o : Option Job) (busy : Bool) → PhaseInv (listing spec) o busy → o ≢ none
  job_when_listing spec none busy h = absurd h
  job_when_listing spec (some j) busy h = λ e. cc

  advance_listing :
      (now : ℕ) (r : Runner W) (spec : Spec W)
      → r.phase ≡ listing spec
      → r.latest ≢ none
      → is_listing (advance now r).phase ≡ false
  unfolding advance advance_at
  advance_listing now r spec e h = elim (Result-cases (spec.task r.world).1) [
    | inl (items, listed) ↦ ground arith
    | inr (x, failed) ↦ ground arith
  ]

  -- the steps that are enough, from any state of the lane
  abbrev pub steps_left : Phase W → ℕ → Runner W → ℕ
  steps_left (listing spec) now r = suc (left (advance now r).phase)
  steps_left p now r = left p

  freed :
      (n now : ℕ) (r : Runner W)
      → Inv r
      → is_listing r.phase ≡ false
      → left r.phase ≤ n
      → (run_for n now r).busy ≡ false
  freed n now r v l h =
      let (stops, still) = run_for-idle n now r v l h in not_busy (run_for n now r) still stops

  lane_freed_at :
      (p : Phase W) (now : ℕ) (r : Runner W)
      → Inv r
      → r.phase ≡ p
      → (run_for (steps_left p now r) now r).busy ≡ false
  unfolding run_for left
  lane_freed_at (listing spec) now r v e =
      let job =
        job_when_listing spec r.latest r.busy (subst (λ p. PhaseInv p r.latest r.busy) e v.phase) in
      freed (left (advance now r).phase) now (advance now r) (advance-Inv now r v)
        (advance_listing now r spec e job) (omega arith)
  lane_freed_at idle now r v e = freed 0 now r v (rw e) (rw e (omega arith))
  lane_freed_at (looping its i) now r v e =
      freed (left (looping its i)) now r v (rw e) (rw e (omega arith))
  lane_freed_at (entering it its i) now r v e =
      freed (left (entering it its i)) now r v (rw e) (rw e (omega arith))
  lane_freed_at (working it its i) now r v e =
      freed (left (working it its i)) now r v (rw e) (rw e (omega arith))
  lane_freed_at (finishing end) now r v e = freed 2 now r v (rw e) (rw e (omega arith))
  lane_freed_at (freeing final) now r v e = freed 1 now r v (rw e) (rw e (omega arith))

  -- A Job that is left alone ends, and frees the lane: after `steps_left` steps, three for each item
  -- still to do and a few for the end, no Job runs.
  pub lane_freed :
      (now : ℕ) (r : Runner W) → Inv r → (run_for (steps_left r.phase now r) now r).busy ≡ false
  lane_freed now r v = lane_freed_at r.phase now r v refl
