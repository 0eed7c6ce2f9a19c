-- ===== src/Paths/Within.antt =====
-- What a path that passes `is_within` looks like.
use vaultflix.Base.{
  Str, codes, eq_str, eq_str_iff, has_prefix, is_empty, true, false, ◌||◌, Bool-cases, List, [],
  ◌∷◌, ◌++◌, All, ◌==◌, ◌≡◌, ◌⊎◌, inl, inr, arith, refl, ◌∙◌, append_assoc, split,
}
use vaultflix.Paths.{parent, clean_loop, is_rooted, elements, clean, is_within}

has_prefix-append : (p s : Str) → has_prefix p s ≡ true → (rest : Str) × (s ≡ p ++ rest)
unfolding has_prefix
has_prefix-append [] s h = (s, refl)
has_prefix-append (c ∷ p) [] h = cc
has_prefix-append (c ∷ p) (d ∷ s) h = elim (Bool-cases (c == d)) [
  | inl e ↦ let (rest, q) = has_prefix-append p s (ground arith) in (rest, ground arith)
  | inr e ↦ ground arith
]

abbrev pub IsWithin : Str → Str → Type 0
IsWithin path root =
    (clean path ≡ clean root) ⊎ ((rest : Str) × (clean path ≡ clean root ++ b'/' ∷ rest))

pub is_within-IsWithin : (path root : Str) → is_within path root ≡ true → IsWithin path root
unfolding is_within
is_within-IsWithin path root h = elim (Bool-cases (eq_str (clean path) (clean root))) [
  | inl e ↦ inl ((eq_str_iff (clean path) (clean root)).0 e)
  | inr e ↦
      let (rest, q) = has_prefix-append (clean root ++ b'/' ∷ []) (clean path) (ground arith) in
      inr (rest, q ∙ append_assoc (clean root) (b'/' ∷ []) rest)
]

abbrev pub NotParent : Str → Type 0
NotParent p = eq_str p (codes "..") ≡ false

parent-All : (out : List Str) → All NotParent out → All NotParent (parent true out)
unfolding parent
parent-All [] h = h
parent-All (q ∷ out) (_, h) = h

clean_loop-All : (ps out : List Str) → All NotParent out → All NotParent (clean_loop true out ps)
unfolding clean_loop
clean_loop-All [] out h = h
clean_loop-All (p ∷ ps) out h = elim (Bool-cases (is_empty p || eq_str p (codes "."))) [
  | inl e ↦ rw e (clean_loop-All ps out h)
  | inr e ↦ rw e (elim (Bool-cases (eq_str p (codes ".."))) [
    | inl f ↦ rw f (clean_loop-All ps _ (parent-All out h))
    | inr f ↦ rw f (clean_loop-All ps _ (f, h))
  ])
]

pub elements-All : (s : Str) → is_rooted s ≡ true → All NotParent (elements s)
unfolding elements
elements-All s h = rw h (clean_loop-All (split b'/' s []) [] tt)
