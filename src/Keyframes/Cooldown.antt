-- ===== src/Keyframes/Cooldown.antt =====
-- A probe of `KeyframeService` (internal/service/keyframe_service.go) and the lookup after it.
use vaultflix.Base.{
  ℕ, ◌-◌, Str, eq_str, eq_str_refl, Bool, true, false, ltb, Bool-cases, if◌then◌else◌, Option, none,
  some, List, [], ◌∷◌, ◌≡◌, inl, inr, arith, refl, ap, ◌∙◌, ◌≢◌,
}
use vaultflix.Base.Int.{ℤ, pos, ltb_ℤ}
use vaultflix.Errors.{Sentinel, Error, is, Result, ok, err}
use vaultflix.Streaming.Segments.{SegmentBoundary, default_segment_target, is_nil, group_segments}
use vaultflix.Streaming.Segments.Boundaries.{Covers, group_segments-Covers}
use vaultflix.Keyframes.{
  Keyframes, probe_failure_cooldown, is_inflight, forget, failure, clear_failure, failed_recently,
  trigger_probe, lookup_or_probe, build_index, record_outcome, index_file, finish_probe, end_probe,
}

failure-now :
    (now : ℕ) (id : Str) (e : Error) (k : Keyframes)
    → is Sentinel.unindexable e ≡ true
    → is Sentinel.canceled e ≡ false
    → failure id (record_outcome now id (some e) k).failed_at ≡ some now
unfolding record_outcome failure
failure-now now id e k u c = rw (u, c, eq_str_refl id) refl

failure-cleared : (id : Str) (xs : List (Str × ℕ)) → failure id (clear_failure id xs) ≡ none
unfolding failure clear_failure
failure-cleared id [] = refl
failure-cleared id ((x, at) ∷ xs) = elim (Bool-cases (eq_str x id)) [
  | inl e ↦ rw e (failure-cleared id xs)
  | inr e ↦ ground (arith, failure-cleared id xs)
]

absent-forgotten : (id : Str) (xs : List Str) → is_inflight id (forget id xs) ≡ false
unfolding forget is_inflight
absent-forgotten id [] = refl
absent-forgotten id (x ∷ xs) = elim (Bool-cases (eq_str x id)) [
  | inl e ↦ rw e (absent-forgotten id xs)
  | inr e ↦ ground (arith, absent-forgotten id xs)
]

-- the answer to a lookup of a Video whose probe failed at `at`, with none in flight
abbrev pub cooling : ℕ → ℕ → Str → Keyframes → Result (List SegmentBoundary) × (Keyframes × Bool)
cooling at later id k =
    if ltb (later - at) probe_failure_cooldown
    then (err (Error.wrap (Error.sentinel Sentinel.keyframe_index_failed)), (k, false))
    else (
      err (Error.wrap (Error.sentinel Sentinel.stream_preparing)),
      (record k { inflight = id ∷ k.inflight }, true),
    )

lookup-cooling :
    (at later : ℕ) (id : Str) (missing : Error) (k : Keyframes)
    → is Sentinel.not_found missing ≡ true
    → failure id k.failed_at ≡ some at
    → is_inflight id k.inflight ≡ false
    → lookup_or_probe later id (err missing) k ≡ cooling at later id k
unfolding lookup_or_probe failed_recently trigger_probe
lookup-cooling at later id missing k m f i = rw (m, failed_recently, f, trigger_probe, i) refl

module _ {D : Type 0} (upsert : Str → List SegmentBoundary → D → D × Option Error) where
  finish_probe-failure :
      (now : ℕ) (id : Str) (probed : Result (List ℤ × ℤ)) (k : Keyframes) (d : D)
      (failed : Option Error)
      → (build_index upsert id probed d).1 ≡ failed
      → failure id (finish_probe upsert now id probed k d).1.failed_at
        ≡ failure id (record_outcome now id failed k).failed_at
  unfolding finish_probe index_file end_probe
  finish_probe-failure now id probed k d failed b =
      ap (λ o. failure id (record_outcome now id o k).failed_at) b

  finish_probe-inflight :
      (now : ℕ) (id : Str) (probed : Result (List ℤ × ℤ)) (k : Keyframes) (d : D)
      → is_inflight id (finish_probe upsert now id probed k d).1.inflight ≡ false
  unfolding finish_probe index_file end_probe
  finish_probe-inflight now id probed k d = absent-forgotten id _

  -- After a probe that fails because of the file, and is not cancelled, a lookup of the Video
  -- answers `keyframe_index_failed` and starts nothing until ten minutes have passed; from then on
  -- it starts a probe and answers `stream_preparing`. The repository has no index all the while.
  pub lookup-finish_probe :
      (now later : ℕ) (id : Str) (probed : Result (List ℤ × ℤ)) (k : Keyframes) (d : D)
      (e missing : Error)
      → (build_index upsert id probed d).1 ≡ some e
      → is Sentinel.unindexable e ≡ true
      → is Sentinel.canceled e ≡ false
      → is Sentinel.not_found missing ≡ true
      → lookup_or_probe later id (err missing) (finish_probe upsert now id probed k d).1
        ≡ cooling now later id (finish_probe upsert now id probed k d).1
  lookup-finish_probe now later id probed k d e missing b u c m =
      lookup-cooling now later id missing _ m
        (finish_probe-failure now id probed k d (some e) b ∙ failure-now now id e k u c)
        (finish_probe-inflight now id probed k d)

  build_index-stored :
      (id : Str) (kf : List ℤ) (total : ℤ) (d stored : D)
      → is_nil (group_segments kf total default_segment_target) ≡ false
      → upsert id (group_segments kf total default_segment_target) d ≡ (stored, none)
      → build_index upsert id (ok (kf, total)) d ≡ (stored, none)
  unfolding build_index
  build_index-stored id kf total d stored n u = rw (n, u) refl

  not_nil : (segs : List SegmentBoundary) → segs ≢ [] → is_nil segs ≡ false
  not_nil [] h = absurd (h refl)
  not_nil (s ∷ segs) h = refl

  -- A probe that finds a length above 0, and whose table the repository takes, stores a table that
  -- covers the Video from 0 to that length without a gap, forgets an earlier failure and is no
  -- longer in flight.
  pub finish_probe-stored :
      (now : ℕ) (id : Str) (kf : List ℤ) (total : ℤ) (k : Keyframes) (d stored : D)
      → ltb_ℤ (pos 0) total ≡ true
      → upsert id (group_segments kf total default_segment_target) d ≡ (stored, none)
      → let (out, after) = finish_probe upsert now id (ok (kf, total)) k d in
        (out ≡ stored)
        × Covers (pos 0) (group_segments kf total default_segment_target) total
        × (failure id after.failed_at ≡ none)
        × (is_inflight id after.inflight ≡ false)
  unfolding finish_probe index_file end_probe record_outcome
  finish_probe-stored now id kf total k d stored t u =
      let (n, c) = group_segments-Covers kf total default_segment_target t in
      let b = build_index-stored id kf total d stored (not_nil _ n) u in
      (
        ap (λ r. r.0) b,
        c,
        ap (λ r. failure id (record_outcome now id r.1 k).failed_at) b
            ∙ failure-cleared id k.failed_at,
        absent-forgotten id _,
      )
