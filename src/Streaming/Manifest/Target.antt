-- ===== src/Streaming/Manifest/Target.antt =====
-- The target duration of a manifest.
use vaultflix.Base.{
  ◌*◌, List, [], ◌∷◌, All, Bool-cases, if◌then◌else◌, inl, inr, arith, ◌≡◌, refl, sym, ap, ◌∙◌,
}
use mathlib.Core.Path.{subst}
use vaultflix.Base.Int.{ℤ, pos, negsuc, ltb_ℤ, ◌≤ℤ◌}
use vaultflix.Streaming.Segments.{SegmentBoundary}
use vaultflix.Streaming.Manifest.{max_duration, ceil, target_duration}

≤ℤ-trans : (a b c : ℤ) → a ≤ℤ b → b ≤ℤ c → a ≤ℤ c
≤ℤ-trans a b c h k = omega arith

All-weaken :
    (segs : List SegmentBoundary) (b c : ℤ)
    → b ≤ℤ c
    → All (λ s. s.duration ≤ℤ b) segs
    → All (λ s. s.duration ≤ℤ c) segs
All-weaken [] b c h k = tt
All-weaken (s ∷ segs) b c h (p, k) = (≤ℤ-trans s.duration b c p h, All-weaken segs b c h k)

max_duration-above :
    (segs : List SegmentBoundary) (m end : ℤ)
    → max_duration m segs ≡ end
    → (m ≤ℤ end) × All (λ s. s.duration ≤ℤ end) segs
unfolding max_duration
max_duration-above [] m end h = (subst (λ n. m ≤ℤ n) h (omega arith), tt)
max_duration-above (s ∷ segs) m end h = elim (Bool-cases (ltb_ℤ m s.duration)) [
  | inl e ↦
      let (p, q) =
        max_duration-above segs s.duration end
          (ap (λ b. max_duration (if b then s.duration else m) segs) (sym e) ∙ h) in
      (≤ℤ-trans m s.duration end (ground arith) p, (p, q))
  | inr e ↦
      let (p, q) =
        max_duration-above segs m end
          (ap (λ b. max_duration (if b then s.duration else m) segs) (sym e) ∙ h) in
      (p, (≤ℤ-trans s.duration m end (ground arith) p, q))
]

ceil-above : (m : ℤ) → m ≤ℤ pos (ceil m * 1_000_000)
unfolding ceil
ceil-above (pos n) = omega arith
ceil-above (negsuc n) = omega arith

-- No segment is longer than the target duration that the manifest states, which is in seconds.
pub target_duration-All :
    (segs : List SegmentBoundary)
    → All (λ s. s.duration ≤ℤ pos (target_duration segs * 1_000_000)) segs
unfolding target_duration
target_duration-All segs =
    let (_, q) = max_duration-above segs (pos 0) (max_duration (pos 0) segs) refl in
    All-weaken segs (max_duration (pos 0) segs) (pos (target_duration segs * 1_000_000))
      (ceil-above (max_duration (pos 0) segs)) q
