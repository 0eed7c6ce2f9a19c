-- ===== src/Jobs/Invariant.antt =====
-- The state of a Job Lane (internal/service/job_runner.go) between any two steps.
use vaultflix.Base.{
  ℕ, suc, ◌+◌, ◌≤◌, Str, Bool, true, false, Option, none, some, [], ◌∷◌, length, length-append, ◌≡◌,
  ◌≢◌, ◌⊎◌, arith, refl, inl, inr, Option-cases,
}
use mathlib.Core.Path.{subst, sym}
use vaultflix.Errors.{Error, Result, ok, err}
use vaultflix.Jobs.{
  Status, running, completed, failed, Job, Spec, Phase, idle, listing, looping, entering, working,
  finishing, freeing, Runner, record_outcome, start, cancel, advance, advance_at, new_runner, Step,
  starts, cancels, advances, Reach, here, extend,
}

-- `n` items are accounted for, each under one outcome, and each failure is listed.
pub record Counts (j : Job) (n : ℕ) : Type 0 where
  pub processed : j.processed ≡ n
  pub one_outcome : j.succeeded + j.skipped + j.failed ≡ n
  pub failures_listed : length j.errors ≡ j.failed

-- A Job that has ended.
pub record Ended (j : Job) (status : Status) : Type 0 where
  pub counts : Counts j j.processed
  pub bounded : j.processed ≤ j.total
  pub not_running : status ≢ running
  pub completed_all : status ≡ completed → j.processed ≡ j.total
  pub failed_listing : status ≡ failed → j.list_error ≢ none

pub Result-cases {ℓ} :
    {A : Type ℓ} (r : Result A) → ((a : A) × (r ≡ ok a)) ⊎ ((e : Error) × (r ≡ err e))
Result-cases (ok a) = inl (a, refl)
Result-cases (err e) = inr (e, refl)

pub record_outcome-Counts :
    (i : ℕ) (id name : Str) (e : Option Error) (j : Job)
    → Counts j i
    → Counts (record_outcome (suc i) id name e j) (suc i)
unfolding record_outcome
record_outcome-Counts i id name none j h = ground arith
record_outcome-Counts i id name (some e) j h =
    ground
      (arith, length-append j.errors (record { item_id = id; item_name = name; error = e } ∷ []))

pub record_outcome_keeps :
    (i : ℕ) (id name : Str) (e : Option Error) (j : Job)
    → ((record_outcome i id name e j).status ≡ j.status)
      × ((record_outcome i id name e j).total ≡ j.total)
unfolding record_outcome
record_outcome_keeps i id name none j = ground arith
record_outcome_keeps i id name (some e) j = ground arith

module _ {W : Type 0} where
  abbrev pub PhaseInv : Phase W → Option Job → Bool → Type 0
  PhaseInv idle none busy = busy ≡ false
  PhaseInv idle (some j) busy = (busy ≡ false) × Ended j j.status
  PhaseInv _ none busy = ⊥
  PhaseInv (listing spec) (some j) busy = (busy ≡ true) × (j.status ≡ running) × Counts j 0
  PhaseInv (looping its i) (some j) busy =
      (busy ≡ true) × (j.status ≡ running) × Counts j i × (i + length its ≡ j.total)
  PhaseInv (entering it its i) (some j) busy =
      (busy ≡ true) × (j.status ≡ running) × Counts j i × (suc (i + length its) ≡ j.total)
  PhaseInv (working it its i) (some j) busy =
      (busy ≡ true) × (j.status ≡ running) × Counts j i × (suc (i + length its) ≡ j.total)
  PhaseInv (finishing end) (some j) busy = (busy ≡ true) × (j.status ≡ running) × Ended j end
  PhaseInv (freeing final) (some j) busy =
      (busy ≡ true) × (j.status ≡ running) × Ended j final.status

  pub record Inv (r : Runner W) : Type 0 where
    pub phase : PhaseInv r.phase r.latest r.busy

  pub new_runner-Inv : (w : W) → Inv (new_runner w)
  unfolding new_runner
  new_runner-Inv w = ground arith

  start-Inv :
      (spec : Spec W) (id : Str) (now : ℕ) (r : Runner W) → Inv r → Inv (start spec id now r).0
  unfolding start
  start-Inv spec id now r h = ground arith

  cancel-Inv : (id : Str) (r : Runner W) → Inv r → Inv (cancel id r).0
  unfolding cancel
  cancel-Inv id r h = ground arith

  advance_at-Inv :
      (p : Phase W) (j : Job) (now : ℕ) (r : Runner W)
      → r.phase ≡ p
      → r.latest ≡ some j
      → PhaseInv p (some j) r.busy
      → Inv (advance_at p j now r)
  unfolding advance_at
  advance_at-Inv idle j now r e₁ e₂ h = ground arith
  advance_at-Inv (listing spec) j now r e₁ e₂ h = elim (Result-cases (spec.task r.world).1) [
    | inl (items, e) ↦ ground arith
    | inr (x, e) ↦ ground arith
  ]
  advance_at-Inv (looping [] i) j now r e₁ e₂ h = ground arith
  advance_at-Inv (looping (it ∷ its) i) j now r e₁ e₂ h = ground arith
  advance_at-Inv (entering it its i) j now r e₁ e₂ h = ground arith
  advance_at-Inv (working it its i) j now r e₁ e₂ h =
      let e = (it.run r.world).1 in
      ground (
        arith,
        record_outcome-Counts i it.id it.name e j,
        record_outcome_keeps (suc i) it.id it.name e j,
      )
  advance_at-Inv (finishing end) j now r e₁ e₂ h = ground arith
  advance_at-Inv (freeing final) j now r e₁ e₂ h = ground arith

  pub advance-some :
      (now : ℕ) (r : Runner W) (j : Job)
      → r.latest ≡ some j
      → advance now r ≡ advance_at r.phase j now r
  unfolding advance
  advance-some now r j e = ground arith

  pub advance-none : (now : ℕ) (r : Runner W) → r.latest ≡ none → advance now r ≡ r
  unfolding advance
  advance-none now r e = ground arith

  pub advance-Inv : (now : ℕ) (r : Runner W) → Inv r → Inv (advance now r)
  advance-Inv now r h = elim (Option-cases r.latest) [
    | inl e ↦ subst Inv (sym (advance-none now r e)) h
    | inr (j, e) ↦
        subst Inv (sym (advance-some now r j e))
          (advance_at-Inv r.phase j now r refl e (subst (λ l. PhaseInv r.phase l r.busy) e h.phase))
  ]

  Step-Inv : {r s : Runner W} → Step r s → Inv r → Inv s
  Step-Inv (starts r spec id now) h = start-Inv spec id now r h
  Step-Inv (cancels r id) h = cancel-Inv id r h
  Step-Inv (advances r now) h = advance-Inv now r h

  -- However the goroutine's steps interleave with starts and cancels, from a new runner on: the
  -- lane is busy exactly while a Job runs; the outcomes of the items add up to the items
  -- processed, each failure is listed; a completed Job has processed every item it listed.
  pub Reach-Inv : (w : W) {r : Runner W} → Reach (new_runner w) r → Inv r
  Reach-Inv w here = new_runner-Inv w
  Reach-Inv w (extend p st) = Step-Inv st (Reach-Inv w p)
