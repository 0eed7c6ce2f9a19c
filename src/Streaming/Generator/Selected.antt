-- ===== src/Streaming/Generator/Selected.antt =====
-- Which parts make up a segment.
use vaultflix.Base.{
  Str, true, false, if◌then◌else◌, List, [], ◌∷◌, ◌++◌, map, append_assoc, append-nil, ◌≡◌, ◌↔◌,
  Bool-cases, inl, inr, refl, arith, sym, ◌∙◌,
}
use vaultflix.Base.Int.{ℤ, pos, ◌-ℤ◌, ◌≤ℤ◌}
use vaultflix.Errors.{Error, ok, err}
use vaultflix.Streaming.Segments.{is_nil}
use vaultflix.Streaming.Generator.{
  SegmentPart, max_start_drift, continuity_tol, in_window, late, has_gap, select_loop,
  select_parts_from_list,
}

-- the parts whose start lies in the window of the segment, in their order
abbrev pub chosen : ℤ → ℤ → List SegmentPart → List SegmentPart
chosen start end_ [] = []
chosen start end_ (p ∷ ps) =
    let rest = chosen start end_ ps in if in_window start end_ p then p ∷ rest else rest

abbrev pub name_of : SegmentPart → Str
name_of p = p.name

-- Each part starts at most two seconds behind the end of the one before.
abbrev pub IsChain : SegmentPart → List SegmentPart → Type 0
IsChain prev [] = Unit
IsChain prev (p ∷ ps) = (p.start -ℤ prev.end_ ≤ℤ continuity_tol) × IsChain p ps

-- The first part starts on the segment's start, within a tenth of a second, and the rest follow.
abbrev pub Fits : ℤ → List SegmentPart → Type 0
Fits start [] = ⊥
Fits start (p ∷ ps) = (p.start -ℤ start ≤ℤ max_start_drift) × IsChain p ps

is_nil-snoc {ℓ} : {A : Type ℓ} (xs : List A) (x : A) → is_nil (xs ++ x ∷ []) ≡ false
is_nil-snoc [] x = refl
is_nil-snoc (y ∷ xs) x = refl

has_gap_iff :
    (prev p : SegmentPart) → (has_gap prev p ≡ false) ↔ (p.start -ℤ prev.end_ ≤ℤ continuity_tol)
unfolding has_gap
has_gap_iff prev p = (λ h. ground arith, λ h. ground arith)

late_iff :
    (start : ℤ) (p : SegmentPart) → (late start p ≡ false) ↔ (p.start -ℤ start ≤ℤ max_start_drift)
unfolding late
late_iff start p = (λ h. ground arith, λ h. ground arith)

-- what the loop returns once it has a name
Rest : ℤ → ℤ → List SegmentPart → List Str → SegmentPart → List Str → Type 0
Rest start end_ ps names prev out =
    IsChain prev (chosen start end_ ps) × (names ++ map name_of (chosen start end_ ps) ≡ out)

module _ (start end_ : ℤ) where
  -- one part more, which leaves no gap
  next {ℓ} :
      {L : Type ℓ} (p : SegmentPart) (ps : List SegmentPart) (names : List Str) (prev : SegmentPart)
      (out : List Str)
      → has_gap prev p ≡ false
      → L ↔ Rest start end_ ps (names ++ p.name ∷ []) p out
      → L ↔ (
          ((p.start -ℤ prev.end_ ≤ℤ continuity_tol) × IsChain p (chosen start end_ ps))
          × (names ++ (p.name ∷ map name_of (chosen start end_ ps)) ≡ out))
  unfolding Rest
  next p ps names prev out g (f, b) = (
    λ l.
        let (c, e) = f l in
        (
          ((has_gap_iff prev p).0 g, c),
          sym (append_assoc names (p.name ∷ []) (map name_of (chosen start end_ ps))) ∙ e,
        ),
    λ ((_, c), e). b (c, append_assoc names (p.name ∷ []) (map name_of (chosen start end_ ps)) ∙ e),
  )

  select_loop-skip :
      (p : SegmentPart) (ps : List SegmentPart) (names : List Str) (prev : SegmentPart)
      → in_window start end_ p ≡ false
      → select_loop start end_ (p ∷ ps) names prev ≡ select_loop start end_ ps names prev
  unfolding select_loop
  select_loop-skip p ps names prev w = rw w refl

  select_loop-take :
      (p : SegmentPart) (ps : List SegmentPart) (names : List Str) (prev : SegmentPart)
      → in_window start end_ p ≡ true
      → is_nil names ≡ false
      → select_loop start end_ (p ∷ ps) names prev ≡ (
          if has_gap prev p
          then err Error.plain
          else select_loop start end_ ps (names ++ p.name ∷ []) p)
  unfolding select_loop
  select_loop-take p ps names prev w n = rw (w, n) refl

  select_loop-ends :
      (names : List Str) (prev : SegmentPart)
      → is_nil names ≡ false
      → select_loop start end_ [] names prev ≡ ok names
  unfolding select_loop
  select_loop-ends names prev n = rw n refl

  select_loop-Rest :
      (ps : List SegmentPart) (names : List Str) (prev : SegmentPart) (out : List Str)
      → is_nil names ≡ false
      → (select_loop start end_ ps names prev ≡ ok out) ↔ Rest start end_ ps names prev out
  unfolding Rest
  select_loop-Rest [] names prev out n = (
    λ h. (tt, cc (h, select_loop-ends names prev n, append-nil names)),
    λ (_, h). cc (h, select_loop-ends names prev n, append-nil names),
  )
  select_loop-Rest (p ∷ ps) names prev out n = elim (Bool-cases (in_window start end_ p)) [
    | inr w ↦ rw (w, select_loop-skip p ps names prev w) (select_loop-Rest ps names prev out n)
    | inl w ↦ elim (Bool-cases (has_gap prev p)) [
      | inl g ↦
          rw (w, select_loop-take p ps names prev w n, g)
            (λ h. cc h, λ ((c, _), _). cc (g, (has_gap_iff prev p).1 c))
      | inr g ↦
          rw (w, select_loop-take p ps names prev w n, g)
            (next p ps names prev out g
              (select_loop-Rest ps (names ++ p.name ∷ []) p out (is_nil-snoc names p.name)))
    ]
  ]

  select_loop-Fits :
      (ps : List SegmentPart) (prev : SegmentPart) (out : List Str)
      → (select_loop start end_ ps [] prev ≡ ok out)
        ↔ (Fits start (chosen start end_ ps) × (map name_of (chosen start end_ ps) ≡ out))
  unfolding select_loop Rest
  select_loop-Fits [] prev out = (λ h. cc h, λ (f, _). absurd f)
  select_loop-Fits (p ∷ ps) prev out = elim (Bool-cases (in_window start end_ p)) [
    | inr w ↦ rw w (select_loop-Fits ps prev out)
    | inl w ↦ elim (Bool-cases (late start p)) [
      | inl l ↦ rw (w, l) (λ h. cc h, λ ((c, _), _). cc (l, (late_iff start p).1 c))
      | inr l ↦
          let (f, b) = select_loop-Rest ps (p.name ∷ []) p out refl in
          rw (w, l)
            (λ h. let (c, e) = f h in (((late_iff start p).0 l, c), e), λ ((_, c), e). b (c, e))
    ]
  ]

  -- A selection succeeds exactly when the parts whose start lies in the segment's window begin on
  -- its start, within a tenth of a second, and follow each other without a gap of more than two
  -- seconds; it is then the names of all of them, in their order.
  pub select_parts-Fits :
      (ps : List SegmentPart) (out : List Str)
      → (select_parts_from_list ps start end_ ≡ ok out)
        ↔ (Fits start (chosen start end_ ps) × (map name_of (chosen start end_ ps) ≡ out))
  unfolding select_parts_from_list
  select_parts-Fits ps out =
      select_loop-Fits ps (record { name = []; start = pos 0; end_ = pos 0 }) out
