-- ===== src/Streaming/Segments/Tiling.antt =====
-- The segments of `GroupSegments` (internal/streaming/keyframe_probe.go) side by side.
use mathlib.Core.List.{Memᴰ}
use mathlib.Core.Path.{subst}
use vaultflix.Base.{true, List, [], ◌∷◌, ◌≡◌, ◌≢◌, ◌⊎◌, inl, inr, refl, All}
use vaultflix.Base.Int.{ℤ, pos, ◌+ℤ◌, ◌≤ℤ◌, ltb_ℤ, int_laws}
use vaultflix.Streaming.Segments.{SegmentBoundary, group_segments}
use vaultflix.Streaming.Segments.Boundaries.{
  Covers, StartsAt, ◌<ℤ◌, group_segments-Covers, group_segments-StartsAt,
}
use vaultflix.Streaming.Segments.Lengths.{LongButLast, group_segments-LongButLast}

-- A table from one time to another: each segment starts where the one before it ended, which is at
-- 0 or at a keyframe and is longer than 0; all but the last are at
-- least the target long.
abbrev pub Tiles : List ℤ → ℤ → ℤ → List SegmentBoundary → ℤ → Type 0
Tiles kf target a [] b = a ≡ b
Tiles kf target a (s ∷ ss) b =
    (s.start ≡ a)
    × ((a ≡ pos 0) ⊎ Memᴰ a kf)
    × (pos 0 <ℤ s.duration)
    × ((ss ≡ []) ⊎ (target ≤ℤ s.duration))
    × Tiles kf target (s.start +ℤ s.duration) ss b

longer : (target d : ℤ) → pos 0 <ℤ target → target ≤ℤ d → pos 0 <ℤ d
longer target d p h = omega (int_laws, p, h)

tiled :
    (kf : List ℤ) (target a : ℤ) (ss : List SegmentBoundary) (b : ℤ)
    → pos 0 <ℤ target
    → Covers a ss b
    → All (StartsAt kf) ss
    → LongButLast target ss
    → Tiles kf target a ss b
tiled kf target a [] b p c k l = c
tiled kf target a (s ∷ []) b p (e, c) (k, _) l =
    (e, subst (λ t. (t ≡ pos 0) ⊎ Memᴰ t kf) e k, l, inl refl, c)
tiled kf target a (s ∷ t ∷ ss) b p (e, c) (k, ks) (l, ls) = (
  e,
  subst (λ t. (t ≡ pos 0) ⊎ Memᴰ t kf) e k,
  longer target s.duration p l,
  inr l,
  tiled kf target (s.start +ℤ s.duration) (t ∷ ss) b p c ks ls,
)

-- For a positive length, a positive target and keyframes of which none lies behind the end: the
-- table is not empty, and its segments tile the Video from 0 to its length, without a gap or an
-- overlap. Each is longer than 0 and starts at 0 or at a keyframe, and all but the last are at least
-- the target long.
pub group_segments-Tiles :
    (kf : List ℤ) (total target : ℤ)
    → ltb_ℤ (pos 0) total ≡ true
    → All (λ p. p ≤ℤ total) kf
    → pos 0 <ℤ target
    → (group_segments kf total target ≢ [])
      × Tiles kf target (pos 0) (group_segments kf total target) total
group_segments-Tiles kf total target h below p =
    let (some_, covers) = group_segments-Covers kf total target h in
    (
      some_,
      tiled kf target (pos 0) _ total p covers (group_segments-StartsAt kf total target)
          (group_segments-LongButLast kf total target below p),
    )
