-- ===== src/Jobs/Counted.antt =====
-- What the reports of the Jobs of internal/service/job_runner.go count.
use vaultflix.Base.{
  ℕ, suc, ◌+◌, ◌≤◌, Str, false, Option, some, List, [], ◌∷◌, ◌++◌, length, ◌≡◌, arith, refl, All,
  All-append, inl, inr, Option-cases,
}
use mathlib.Core.Path.{subst, sym}
use vaultflix.Errors.{Error}
use vaultflix.Jobs.{
  completed, Job, Spec, Phase, idle, listing, looping, entering, working, finishing, freeing,
  Runner, Report, item_started, item_done, listing_failed, finished, clone_job, record_outcome,
  start, cancel, new_runner, starts, cancels, advances, Reach, here, extend, advance, advance_at,
}
use vaultflix.Jobs.Invariant.{
  Inv, Counts, PhaseInv, Reach-Inv, advance-some, advance-none, Result-cases, record_outcome-Counts,
  record_outcome_keeps,
}

-- The counters of a report's Job.
unfoldable pub IsCounted : Report → Type 0
IsCounted (item_started j it n) = n ≤ j.total
IsCounted (item_done j it n e) = (j.succeeded + j.skipped + j.failed ≡ n) × (n ≤ j.total)
IsCounted (listing_failed j e) = Unit
IsCounted (finished j) =
    (j.succeeded + j.skipped + j.failed ≡ j.processed)
    × (j.processed ≤ j.total)
    × (j.status ≡ completed → j.processed ≡ j.total)

and_report :
    (rs : List Report) (x : Report) → All IsCounted rs → IsCounted x → All IsCounted (rs ++ x ∷ [])
and_report rs x a h = All-append IsCounted rs (x ∷ []) a (h, tt)

done-IsCounted :
    (i total : ℕ) (id name : Str) (e : Option Error) (j : Job)
    → Counts j i
    → i + total ≡ j.total
    → 1 ≤ total
    → IsCounted
        (item_done (clone_job (record_outcome (suc i) id name e j) false) (id, name) (suc i) e)
unfolding IsCounted clone_job
done-IsCounted i total id name e j h a b =
    ground (arith, record_outcome-Counts i id name e j, record_outcome_keeps (suc i) id name e j)

module _ {W : Type 0} where
  advance_at-IsCounted :
      (p : Phase W) (j : Job) (now : ℕ) (r : Runner W)
      → r.phase ≡ p
      → r.latest ≡ some j
      → PhaseInv p (some j) r.busy
      → All IsCounted r.reports
      → All IsCounted (advance_at p j now r).reports
  unfolding advance_at clone_job IsCounted
  advance_at-IsCounted idle j now r e₁ e₂ h a = a
  advance_at-IsCounted (listing spec) j now r e₁ e₂ h a =
      elim (Result-cases (spec.task r.world).1) [
        | inl (items, e) ↦ grind (arith, and_report)
        | inr (x, e) ↦ grind (arith, and_report)
      ]
  advance_at-IsCounted (looping [] i) j now r e₁ e₂ h a = a
  advance_at-IsCounted (looping (it ∷ its) i) j now r e₁ e₂ h a = ground arith
  advance_at-IsCounted (entering it its i) j now r e₁ e₂ h a =
      and_report r.reports _ a (omega (arith, h.3))
  advance_at-IsCounted (working it its i) j now r e₁ e₂ h a = and_report r.reports _ a (
      done-IsCounted i (suc (length its)) it.id it.name (it.run r.world).1 j h.2
        (omega (arith, h.3)) (omega arith))
  advance_at-IsCounted (finishing end) j now r e₁ e₂ h a =
      and_report r.reports _ a (ground (arith, h.2))
  advance_at-IsCounted (freeing final) j now r e₁ e₂ h a = a

  advance-IsCounted :
      (now : ℕ) (r : Runner W)
      → Inv r
      → All IsCounted r.reports
      → All IsCounted (advance now r).reports
  advance-IsCounted now r h a = elim (Option-cases r.latest) [
    | inl e ↦ subst (λ s. All IsCounted s.reports) (sym (advance-none now r e)) a
    | inr (j, e) ↦
        subst (λ s. All IsCounted s.reports) (sym (advance-some now r j e))
          (advance_at-IsCounted r.phase j now r refl e
            (subst (λ l. PhaseInv r.phase l r.busy) e h.phase) a)
  ]

  start-IsCounted :
      (spec : Spec W) (id : Str) (now : ℕ) (r : Runner W)
      → All IsCounted r.reports
      → All IsCounted (start spec id now r).0.reports
  unfolding start
  start-IsCounted spec id now r a = ground arith

  cancel-IsCounted :
      (id : Str) (r : Runner W) → All IsCounted r.reports → All IsCounted (cancel id r).0.reports
  unfolding cancel
  cancel-IsCounted id r a = ground arith

  -- In every reachable state of a lane the reports count as `IsCounted` says.
  pub Reach-IsCounted : (w : W) {r : Runner W} → Reach (new_runner w) r → All IsCounted r.reports
  unfolding new_runner
  Reach-IsCounted w here = tt
  Reach-IsCounted w (extend p (starts r spec id now)) =
      start-IsCounted spec id now r (Reach-IsCounted w p)
  Reach-IsCounted w (extend p (cancels r id)) = cancel-IsCounted id r (Reach-IsCounted w p)
  Reach-IsCounted w (extend p (advances r now)) =
      advance-IsCounted now r (Reach-Inv w p) (Reach-IsCounted w p)
