-- ===== src/Streaming/Segments/Lengths.antt =====
-- How long the segments of a table are.
use vaultflix.Base.{
  true, false, List, [], ◌∷◌, ◌++◌, ◌≡◌, inl, inr, arith, refl, All, All-append, ap, Bool-cases,
  ltb→lt,
}
use vaultflix.Base.Int.{ℤ, pos, ◌+ℤ◌, ◌-ℤ◌, ◌≤ℤ◌, ltb_ℤ, int_laws, pos_part, neg_part}
use vaultflix.Streaming.Segments.{
  SegmentBoundary, second, stretch_last, cut, close_tail, group_segments,
}
use vaultflix.Streaming.Segments.Boundaries.{Covers, ◌<ℤ◌, Covers-cut}

not_ltb : (a b : ℤ) → ltb_ℤ a b ≡ false → b ≤ℤ a
not_ltb a b h = ground arith

-- At least the target long.
abbrev pub IsLong : ℤ → SegmentBoundary → Type 0
IsLong target s = target ≤ℤ s.duration

-- All but the last segment are at least the target long, and the last is not empty.
abbrev pub LongButLast : ℤ → List SegmentBoundary → Type 0
LongButLast target [] = Unit
LongButLast target (s ∷ []) = pos 0 <ℤ s.duration
LongButLast target (s ∷ t ∷ ss) = IsLong target s × LongButLast target (t ∷ ss)

-- While the loop runs: the segments so far are long, and follow one another up to `cur`.
long_append :
    (target : ℤ) (segs : List SegmentBoundary) (y : SegmentBoundary)
    → All (IsLong target) segs
    → pos 0 <ℤ y.duration
    → LongButLast target (segs ++ y ∷ [])
long_append target [] y h p = p
long_append target (s ∷ []) y (q, h) p = (q, p)
long_append target (s ∷ t ∷ ss) y (q, h) p = (q, long_append target (t ∷ ss) y h p)

IsLong-cut :
    (kf : List ℤ) (total target : ℤ) (segs : List SegmentBoundary) (cur : ℤ)
    → All (λ p. p ≤ℤ total) kf
    → All (IsLong target) segs
    → cur ≤ℤ total
    → let (out, end) = cut kf target segs cur in All (IsLong target) out × (end ≤ℤ total)
unfolding cut
IsLong-cut [] total target segs cur b h c = (h, c)
IsLong-cut (pts ∷ kf) total target segs cur (m, b) h c =
    elim (Bool-cases (ltb_ℤ (pts -ℤ cur) target)) [
      | inl e ↦ rw (e, cut) (IsLong-cut kf total target segs cur b h c)
      | inr e ↦
          rw (e, cut)
            (IsLong-cut kf total target
              (segs ++ (record { start = cur; duration = pts -ℤ cur } ∷ [])) pts b
              (All-append (IsLong target) segs _ h (not_ltb (pts -ℤ cur) target e, tt)) m)
    ]

last_positive :
    (total target start duration b : ℤ)
    → pos 0 <ℤ target
    → b ≤ℤ total
    → start +ℤ duration ≡ b
    → target ≤ℤ duration
    → pos 0 <ℤ (total -ℤ start)
last_positive total target start duration b p c v q = omega (int_laws, ap pos_part v, ap neg_part v)

long_stretch :
    (total target : ℤ) (segs : List SegmentBoundary) (a b : ℤ)
    → pos 0 <ℤ target
    → b ≤ℤ total
    → Covers a segs b
    → All (IsLong target) segs
    → LongButLast target (stretch_last total segs)
unfolding stretch_last
long_stretch total target [] a b p c v h = tt
long_stretch total target (s ∷ []) a b p c (v, v') (q, h) =
    last_positive total target s.start s.duration b p c v' q
long_stretch total target (s ∷ t ∷ []) a b p c (v, w) (q, h) =
    (q, long_stretch total target (t ∷ []) _ b p c w h)
long_stretch total target (s ∷ t ∷ u ∷ ss) a b p c (v, w) (q, h) =
    (q, long_stretch total target (t ∷ u ∷ ss) _ b p c w h)

tail_positive : (total cur : ℤ) → ltb_ℤ (total -ℤ cur) second ≡ false → pos 0 <ℤ (total -ℤ cur)
tail_positive total cur h = omega (int_laws, not_ltb (total -ℤ cur) second h)

whole_positive :
    (total cur : ℤ) → ltb_ℤ (pos 0) total ≡ true → pos 0 ≡ cur → pos 0 <ℤ (total -ℤ cur)
whole_positive total cur h e = omega (int_laws, ltb→lt _ _ h, ap pos_part e, ap neg_part e)

long_close :
    (total target : ℤ) (segs : List SegmentBoundary) (cur : ℤ)
    → ltb_ℤ (pos 0) total ≡ true
    → pos 0 <ℤ target
    → cur ≤ℤ total
    → Covers (pos 0) segs cur
    → All (IsLong target) segs
    → LongButLast target (close_tail total segs cur)
unfolding close_tail
long_close total target [] cur t p c v h = elim (Bool-cases (ltb_ℤ (total -ℤ cur) second)) [
  | inl e ↦ rw e (whole_positive total cur t v)
  | inr e ↦ rw e (whole_positive total cur t v)
]
long_close total target (s ∷ ss) cur t p c v h = elim (Bool-cases (ltb_ℤ (total -ℤ cur) second)) [
  | inl e ↦ rw e (long_stretch total target (s ∷ ss) (pos 0) cur p c v h)
  | inr e ↦ rw e (
      long_append target (s ∷ ss) (record { start = cur; duration = total -ℤ cur }) h
        (tail_positive total cur e))
]

zero_le : (total : ℤ) → ltb_ℤ (pos 0) total ≡ true → pos 0 ≤ℤ total
zero_le total h = omega (arith, ltb→lt _ _ h)

pub group_segments-LongButLast :
    (kf : List ℤ) (total target : ℤ)
    → All (λ p. p ≤ℤ total) kf
    → pos 0 <ℤ target
    → LongButLast target (group_segments kf total target)
unfolding group_segments
group_segments-LongButLast kf total target b p = elim (Bool-cases (ltb_ℤ (pos 0) total)) [
  | inl e ↦
      let (long, below) = IsLong-cut kf total target [] (pos 0) b tt (zero_le total e) in
      rw e
        (long_close total target _ _ e p below (Covers-cut kf target [] (pos 0) (pos 0) refl) long)
  | inr e ↦ rw e tt
]
