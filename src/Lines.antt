-- ===== src/Lines.antt =====
-- Lines: texts without a line break, the splitting of a text at its breaks, and the bytes that a
-- text contains.
use mathlib.Core.List.{Memᴰ}
use vaultflix.Base.Text.{digits, itoa, contains}
use vaultflix.Base.{
  ℕ, zero, suc, ◌+◌, ◌/◌, ◌%◌, Str, codes, has_prefix, is_empty, split, Bool, true, false, ◌&&◌,
  not, ◌==◌, [], ◌∷◌, ◌++◌, All, append_assoc, append-nil, ◌≡◌, ◌≢◌, refl, arith, sym, ap, ◌∙◌,
  Bool-cases, inl, inr,
}

-- a text without a line break
abbrev pub IsLine : Str → Type 0
IsLine s = All (λ c. c ≢ 10) s

pub not_same : (c : ℕ) → (c == 10) ≡ false → c ≢ 10
not_same c e z = absurd (cc (rw z at e))

unfoldable pub breakless : Str → Bool
breakless [] = true
breakless (c ∷ s) = not (c == 10) && breakless s

pub breakless-IsLine : (s : Str) → breakless s ≡ true → IsLine s
unfolding breakless
breakless-IsLine [] h = tt
breakless-IsLine (c ∷ s) h = (not_same c (ground arith), breakless-IsLine s (ground arith))

pub other : (c : ℕ) → c ≢ 10 → (c == 10) ≡ false
other c h = ground (arith, h)

pub split-line :
    (line rest cur : Str)
    → IsLine line
    → split 10 (line ++ 10 ∷ rest) cur ≡ (cur ++ line) ∷ split 10 rest []
unfolding split
split-line [] rest cur h = ap (λ l. l ∷ split 10 rest []) (sym (append-nil cur))
split-line (c ∷ line) rest cur (h, k) =
    rw (other c h, split)
      (split-line line rest (cur ++ c ∷ []) k
        ∙ ap (λ l. l ∷ split 10 rest []) (append_assoc cur (c ∷ []) line))

pub digits-IsLine : (f n : ℕ) (out : Str) → IsLine out → IsLine (digits f n out)
unfolding digits
digits-IsLine zero n out h = h
digits-IsLine (suc f) n out h = elim (Bool-cases (n == 0)) [
  | inl e ↦ rw (e, digits) h
  | inr e ↦
      rw (e, digits)
        (digits-IsLine f (n / 10) ((b'0' + n % 10) ∷ out) (λ z. absurd (omega (arith, z)), h))
]

pub itoa-IsLine : (n : ℕ) → IsLine (itoa n)
unfolding itoa breakless
itoa-IsLine n = elim (Bool-cases (n == 0)) [
  | inl e ↦ rw (e, itoa) (breakless-IsLine (codes "0") refl)
  | inr e ↦ rw (e, itoa) (digits-IsLine n n [] tt)
]

pub contains-Mem : (c : ℕ) (s : Str) → (contains (c ∷ []) s ≡ true) → Memᴰ c s
unfolding contains has_prefix is_empty
contains-Mem c [] h = cc h
contains-Mem c (d ∷ s) h = elim (Bool-cases (c == d)) [
  | inl e ↦ Memᴰ.head (ground (arith, e))
  | inr e ↦ Memᴰ.tail (contains-Mem c s (rw e at h))
]

pub contains-All : (c : ℕ) (s : Str) → (contains (c ∷ []) s ≡ false) → All (λ d. d ≢ c) s
unfolding contains has_prefix is_empty
contains-All c [] h = tt
contains-All c (d ∷ s) h = elim (Bool-cases (c == d)) [
  | inl e ↦ absurd (cc (rw e at h))
  | inr e ↦ (λ z. ground (arith, e, z), contains-All c s (rw e at h))
]

pub All-absent : (c : ℕ) (s : Str) → All (λ d. d ≢ c) s → Memᴰ c s → ⊥
All-absent c [] h m = elim m [ ]
All-absent c (d ∷ s) (n, h) (Memᴰ.head e) = n (sym e)
All-absent c (d ∷ s) (n, h) (Memᴰ.tail m) = All-absent c s h m
