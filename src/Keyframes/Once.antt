-- ===== src/Keyframes/Once.antt =====
-- `KeyframeService` (internal/service/keyframe_service.go) with the goroutines that it has started.
use vaultflix.Base.{
  ℕ, Str, eq_str, eq_str_iff, Bool, true, false, Bool-cases, if◌then◌else◌, Option, none, some,
  List, [], ◌∷◌, ◌≡◌, inl, inr, arith, refl, ap, sym, ◌∙◌,
}
use vaultflix.Base.Int.{ℤ}
use mathlib.Core.Path.{subst}
use vaultflix.Errors.{Sentinel, Error, is, Result, ok, err}
use vaultflix.Streaming.Segments.{SegmentBoundary}
use vaultflix.Keyframes.{
  Keyframes, is_inflight, forget, trigger_probe, lookup_or_probe, failed_recently, record_outcome,
  index_file, end_probe,
}

-- the service and the goroutines that `triggerProbe` has started and that have not ended, each by
-- its Video; the probes of `EnsureIndex`, which run in their callers, are not among them
pub record System : Type 0 where
  pub service : Keyframes
  pub goroutines : List Str

abbrev pub started : Str → Keyframes × Bool → List Str → System
started id (k, true) goroutines = record { service = k; goroutines = id ∷ goroutines }
started id (k, false) goroutines = record { service = k; goroutines = goroutines }

-- the probe of a Video ends, one of those that run for it
unfoldable pub end_one : Str → List Str → List Str
unfolding eq_str
end_one id [] = []
end_one id (x ∷ xs) = let rest = end_one id xs in if eq_str x id then xs else x ∷ rest

-- no Video twice
abbrev pub Distinct : List Str → Type 0
Distinct [] = Unit {0}
Distinct (x ∷ xs) = (is_inflight x xs ≡ false) × Distinct xs

forget-absent : (id : Str) (xs : List Str) → is_inflight id xs ≡ false → forget id xs ≡ xs
unfolding forget is_inflight
forget-absent id [] h = refl
forget-absent id (x ∷ xs) h = elim (Bool-cases (eq_str x id)) [
  | inl e ↦ ground arith
  | inr e ↦ ground (arith, forget-absent id xs (ground arith))
]

absent-forget :
    (x id : Str) (xs : List Str) → is_inflight x xs ≡ false → is_inflight x (forget id xs) ≡ false
unfolding forget is_inflight
absent-forget x id [] h = refl
absent-forget x id (y ∷ xs) h = elim (Bool-cases (eq_str y x)) [
  | inl e ↦ ground arith
  | inr e ↦ elim (Bool-cases (eq_str y id)) [
    | inl f ↦ rw f (absent-forget x id xs (ground arith))
    | inr f ↦ ground (arith, absent-forget x id xs (ground arith))
  ]
]

Distinct-forget : (id : Str) (xs : List Str) → Distinct xs → Distinct (forget id xs)
unfolding forget
Distinct-forget id [] h = tt
Distinct-forget id (x ∷ xs) (a, h) = elim (Bool-cases (eq_str x id)) [
  | inl e ↦ rw e (Distinct-forget id xs h)
  | inr e ↦ rw e (absent-forget x id xs a, Distinct-forget id xs h)
]

end_one-forget : (id : Str) (xs : List Str) → Distinct xs → end_one id xs ≡ forget id xs
unfolding forget end_one
end_one-forget id [] h = refl
end_one-forget id (x ∷ xs) (a, h) = elim (Bool-cases (eq_str x id)) [
  | inl e ↦
      rw e (
        sym (forget-absent id xs (subst (λ y. is_inflight y xs ≡ false) ((eq_str_iff x id).0 e) a)))
  | inr e ↦ rw e (ap (◌∷◌ x) (end_one-forget id xs h))
]

record_outcome-inflight :
    (now : ℕ) (id : Str) (failed : Option Error) (k : Keyframes)
    → (record_outcome now id failed k).inflight ≡ k.inflight
unfolding record_outcome
record_outcome-inflight now id none k = refl
record_outcome-inflight now id (some e) k = ground arith

module _ {D : Type 0} (upsert : Str → List SegmentBoundary → D → D × Option Error) where
  -- Lookups in any order and of any stored answers, the goroutines that they start, what is recorded
  -- of a probe, by a goroutine or by `EnsureIndex`, and the ends of the goroutines.
  pub data Run : System → Type 0 where
    init : Run (record { service = record { inflight = []; failed_at = [] }; goroutines = [] })
    looked_up :
        {s : System}
        → Run s
        → (now : ℕ) (id : Str) (stored : Result (List SegmentBoundary))
        → Run (started id (lookup_or_probe now id stored s.service).1 s.goroutines)
    -- a goroutine, or a Job on the Media Lane, records what became of a probe
    indexed :
        {s : System}
        → Run s
        → (now : ℕ) (id : Str) (probed : Result (List ℤ × ℤ)) (d : D)
        → Run (record s { service = (index_file upsert now id probed s.service d).1.0 })
    ended :
        {s : System}
        → Run s
        → (id : Str) → is_inflight id s.goroutines ≡ true
        → Run (record { service = end_probe id s.service; goroutines = end_one id s.goroutines })

  abbrev Agrees : System → Type 0
  Agrees s = (s.goroutines ≡ s.service.inflight) × Distinct s.service.inflight

  trigger-Agrees :
      (s : System) (id : Str)
      → Agrees s
      → Agrees (started id (trigger_probe id s.service) s.goroutines)
  unfolding trigger_probe
  trigger-Agrees s id (a, h) = elim (Bool-cases (is_inflight id s.service.inflight)) [
    | inl e ↦ rw e (a, h)
    | inr e ↦ rw e (ap (◌∷◌ id) a, (e, h))
  ]

  looked_up-Agrees :
      (s : System) (now : ℕ) (id : Str) (stored : Result (List SegmentBoundary))
      → Agrees s
      → Agrees (started id (lookup_or_probe now id stored s.service).1 s.goroutines)
  unfolding lookup_or_probe
  looked_up-Agrees s now id (ok segs) h = h
  looked_up-Agrees s now id (err e) h = elim (Bool-cases (is Sentinel.not_found e)) [
    | inl p ↦ elim (Bool-cases (failed_recently now id s.service)) [
      | inl q ↦ rw (p, q) h
      | inr q ↦ rw (p, q) (trigger-Agrees s id h)
    ]
    | inr p ↦ rw p h
  ]

  index-inflight :
      (now : ℕ) (id : Str) (probed : Result (List ℤ × ℤ)) (k : Keyframes) (d : D)
      → (index_file upsert now id probed k d).1.0.inflight ≡ k.inflight
  unfolding index_file
  index-inflight now id probed k d = record_outcome-inflight now id _ k

  Run-Agrees : {s : System} → Run s → Agrees s
  unfolding end_probe
  Run-Agrees init = (refl, tt)
  Run-Agrees (looked_up {s} r now id stored) = looked_up-Agrees s now id stored (Run-Agrees r)
  Run-Agrees (indexed {s} r now id probed d) =
      let (a, h) = Run-Agrees r in
      let same = index-inflight now id probed s.service d in
      (a ∙ sym same, subst Distinct (sym same) h)
  Run-Agrees (ended {s} r id _) =
      let (a, h) = Run-Agrees r in
      (
        ap (end_one id) a ∙ end_one-forget id s.service.inflight h,
        Distinct-forget id s.service.inflight h,
      )

  -- Whatever the requests are, in whatever order they, the records of `EnsureIndex` and the ends of
  -- the goroutines come: lookups never have two goroutines running for one Video, and the map of the
  -- service names exactly the Videos with a goroutine. Probes that `EnsureIndex` runs are not counted.
  pub goroutines-Distinct :
      (s : System) → Run s → (s.goroutines ≡ s.service.inflight) × Distinct s.goroutines
  goroutines-Distinct s r = let (a, h) = Run-Agrees r in (a, subst Distinct (sym a) h)
