-- ===== src/Streaming/Segments/Boundaries.antt =====
-- Where the segments of `GroupSegments` (internal/streaming/keyframe_probe.go) begin and end.
use mathlib.Core.List.{Memᴰ}
use mathlib.Core.Path.{subst}
use vaultflix.Base.{
  true, false, not, ◌||◌, List, [], ◌∷◌, ◌++◌, ◌≡◌, ◌≢◌, ◌⊎◌, inl, inr, arith, refl, All,
  All-append, sym, ◌+◌, Bool-cases, ◌<◌,
}
use vaultflix.Base.Int.{ℤ, pos, ◌+ℤ◌, ◌-ℤ◌, ltb_ℤ, int_laws, pos_part, neg_part}
use vaultflix.Streaming.Segments.{
  SegmentBoundary, second, is_nil, stretch_last, cut, close_tail, group_segments,
}

-- The segments follow one another from one time to another, each starting where the last ended.
abbrev pub Covers : ℤ → List SegmentBoundary → ℤ → Type 0
Covers a [] b = a ≡ b
Covers a (s ∷ ss) b = (s.start ≡ a) × Covers (s.start +ℤ s.duration) ss b

infix 50 ◌<ℤ◌
abbrev pub ◌<ℤ◌ : ℤ → ℤ → Type 0
a <ℤ b = pos_part a + neg_part b < pos_part b + neg_part a

Covers-append :
    (xs ys : List SegmentBoundary) (a b c : ℤ)
    → Covers a xs b
    → Covers b ys c
    → Covers a (xs ++ ys) c
Covers-append [] ys a b c h k = subst (λ t. Covers t ys c) (sym h) k
Covers-append (x ∷ xs) ys a b c (p, h) k = (p, Covers-append xs ys _ b c h k)

add_back : (a b : ℤ) → a +ℤ (b -ℤ a) ≡ b
add_back a b = omega int_laws

Covers-stretch_last :
    (total : ℤ) (segs : List SegmentBoundary) (a b : ℤ)
    → is_nil segs ≡ false
    → Covers a segs b
    → Covers a (stretch_last total segs) total
unfolding stretch_last
Covers-stretch_last total [] a b n h = cc
Covers-stretch_last total (s ∷ []) a b n (p, h) = (p, add_back s.start total)
Covers-stretch_last total (s ∷ t ∷ ss) a b n (p, h) =
    (p, Covers-stretch_last total (t ∷ ss) _ b refl h)

pub Covers-cut :
    (kf : List ℤ) (target : ℤ) (segs : List SegmentBoundary) (cur a : ℤ)
    → Covers a segs cur
    → let (out, end) = cut kf target segs cur in Covers a out end
unfolding cut
Covers-cut [] target segs cur a h = h
Covers-cut (pts ∷ kf) target segs cur a h = elim (Bool-cases (ltb_ℤ (pts -ℤ cur) target)) [
  | inl e ↦ rw (e, cut) (Covers-cut kf target segs cur a h)
  | inr e ↦
      rw (e, cut)
        (Covers-cut kf target (segs ++ (record { start = cur; duration = pts -ℤ cur } ∷ [])) pts a
          (Covers-append segs _ a cur pts h (refl, add_back cur pts)))
]

Covers-close_tail :
    (total : ℤ) (segs : List SegmentBoundary) (cur a : ℤ)
    → Covers a segs cur
    → Covers a (close_tail total segs cur) total
unfolding close_tail
Covers-close_tail total [] cur a h = ground (arith, add_back cur total)
Covers-close_tail total (s ∷ ss) cur a h = elim (Bool-cases (ltb_ℤ (total -ℤ cur) second)) [
  | inl e ↦ rw e (Covers-stretch_last total (s ∷ ss) a cur refl h)
  | inr e ↦ rw e (Covers-append (s ∷ ss) _ a cur total h (refl, add_back cur total))
]

append-ne-nil : (xs : List SegmentBoundary) (y : SegmentBoundary) → xs ++ y ∷ [] ≢ []
append-ne-nil [] y = λ e. cc
append-ne-nil (x ∷ xs) y = λ e. cc

stretch_last-ne-nil :
    (total : ℤ) (s : SegmentBoundary) (ss : List SegmentBoundary) → stretch_last total (s ∷ ss) ≢ []
unfolding stretch_last
stretch_last-ne-nil total s [] = λ e. cc
stretch_last-ne-nil total s (t ∷ ss) = λ e. cc

not_empty : (total : ℤ) (segs : List SegmentBoundary) (cur : ℤ) → close_tail total segs cur ≢ []
unfolding close_tail
not_empty total [] cur = ground arith
not_empty total (s ∷ ss) cur = ground (
  arith,
  stretch_last-ne-nil total s ss,
  append-ne-nil (s ∷ ss) (record { start = cur; duration = total -ℤ cur }),
)

-- For a positive length, whatever the keyframes, the table is not empty, and its segments cover
-- the Video from 0 to its length, each starting where the one before it ends.
pub group_segments-Covers :
    (kf : List ℤ) (total target : ℤ)
    → ltb_ℤ (pos 0) total ≡ true
    → (group_segments kf total target ≢ []) × Covers (pos 0) (group_segments kf total target) total
unfolding group_segments
group_segments-Covers kf total target h =
    let (segs, cur) = cut kf target [] (pos 0) in
    let c =
      Covers-close_tail total segs cur (pos 0) (Covers-cut kf target [] (pos 0) (pos 0) refl) in
    rw h (not_empty total segs cur, c)

-- The places where the table cuts are 0 and keyframes.
abbrev pub StartsAt : List ℤ → SegmentBoundary → Type 0
StartsAt kf s = (s.start ≡ pos 0) ⊎ Memᴰ s.start kf

module _ (all : List ℤ) where
  AtKeyframe : ℤ → Type 0
  AtKeyframe t = (t ≡ pos 0) ⊎ Memᴰ t all

  StartsAt-cut :
      (kf : List ℤ) (target : ℤ) (segs : List SegmentBoundary) (cur : ℤ)
      → All (λ p. Memᴰ p all) kf
      → All (StartsAt all) segs
      → (cur ≡ pos 0) ⊎ Memᴰ cur all
      → let (out, end) = cut kf target segs cur in
        All (StartsAt all) out × ((end ≡ pos 0) ⊎ Memᴰ end all)
  unfolding cut
  StartsAt-cut [] target segs cur k h c = (h, c)
  StartsAt-cut (pts ∷ kf) target segs cur (m, k) h c =
      elim (Bool-cases (ltb_ℤ (pts -ℤ cur) target)) [
        | inl e ↦ rw (e, cut) (StartsAt-cut kf target segs cur k h c)
        | inr e ↦
            rw (e, cut)
              (StartsAt-cut kf target (segs ++ (record { start = cur; duration = pts -ℤ cur } ∷ []))
                pts k (All-append (StartsAt all) segs _ h (c, tt)) (inr m))
      ]

  StartsAt-stretch_last :
      (total : ℤ) (segs : List SegmentBoundary)
      → All (StartsAt all) segs
      → All (StartsAt all) (stretch_last total segs)
  unfolding stretch_last
  StartsAt-stretch_last total [] h = h
  StartsAt-stretch_last total (s ∷ []) h = h
  StartsAt-stretch_last total (s ∷ t ∷ ss) (p, h) = (p, StartsAt-stretch_last total (t ∷ ss) h)

  StartsAt-close_tail :
      (total : ℤ) (segs : List SegmentBoundary) (cur : ℤ)
      → All (StartsAt all) segs
      → (cur ≡ pos 0) ⊎ Memᴰ cur all
      → All (StartsAt all) (close_tail total segs cur)
  unfolding close_tail
  StartsAt-close_tail total segs cur h c =
      elim (Bool-cases (not (ltb_ℤ (total -ℤ cur) second) || is_nil segs)) [
        | inl e ↦ rw e (All-append (StartsAt all) segs _ h (c, tt))
        | inr e ↦ rw e (StartsAt-stretch_last total segs h)
      ]

All-Mem-tail : (kf all : List ℤ) → ((p : ℤ) → Memᴰ p kf → Memᴰ p all) → All (λ p. Memᴰ p all) kf
All-Mem-tail [] all f = tt
All-Mem-tail (x ∷ kf) all f = (f x (Memᴰ.head refl), All-Mem-tail kf all (λ p m. f p (Memᴰ.tail m)))

-- Every segment starts at 0 or at a keyframe of the list: `-c copy` can cut nowhere else.
pub group_segments-StartsAt :
    (kf : List ℤ) (total target : ℤ) → All (StartsAt kf) (group_segments kf total target)
unfolding group_segments
group_segments-StartsAt kf total target = elim (Bool-cases (ltb_ℤ (pos 0) total)) [
  | inl e ↦
      let (out, end) =
        StartsAt-cut kf kf target [] (pos 0) (All-Mem-tail kf kf (λ p m. m)) tt (inl refl) in
      rw e (StartsAt-close_tail kf total _ _ out end)
  | inr e ↦ rw e tt
]
