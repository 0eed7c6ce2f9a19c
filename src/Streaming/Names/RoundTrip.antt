-- ===== src/Streaming/Names/RoundTrip.antt =====
-- Names of segments and their indices.
use vaultflix.Base.{
  ℕ, zero, suc, ◌+◌, ◌-◌, ◌*◌, ◌/◌, ◌%◌, ◌≤◌, ◌<◌, Str, codes, eq_str_iff, Option, none, some, [],
  ◌∷◌, ◌++◌, ◌≡◌, arith, refl, length, length-append, Option-cases, inl, inr, ap,
}
use vaultflix.Base.Text.{digits}
use vaultflix.Streaming.Names.{
  pad_five, segment_name, read_digits, after_digits, parse_segment_name,
}

-- The name of each of the first 100,000 segments is read back as its index.
pub parse-segment_name : (i : ℕ) → i < 100_000 → parse_segment_name (segment_name i) ≡ some i
unfolding parse_segment_name segment_name
parse-segment_name i h = let e : i / 100_000 ≡ 0 = omega arith in rw e (ground arith)

-- five digits and the number that they spell
module _ (a b c d e i : ℕ) (ha : (b'0' ≤ a) × (a ≤ b'9')) (hb : (b'0' ≤ b) × (b ≤ b'9'))
    (hc : (b'0' ≤ c) × (c ≤ b'9')) (hd : (b'0' ≤ d) × (d ≤ b'9')) (he : (b'0' ≤ e) × (e ≤ b'9'))
    (spelt : i
      ≡ ((((a - b'0') * 10 + (b - b'0')) * 10 + (c - b'0')) * 10 + (d - b'0')) * 10
        + (e - b'0')) where
  small : i < 100_000
  small = omega arith

  pad_five-digits : pad_five i ≡ a ∷ b ∷ c ∷ d ∷ e ∷ []
  unfolding pad_five
  pad_five-digits = let z : i / 100_000 ≡ 0 = omega arith in rw z (ground arith)

abbrev IsDigit : ℕ → Type 0
IsDigit c = (b'0' ≤ c) × (c ≤ b'9')

read_digits_step :
    (k n c m : ℕ) (s rest : Str)
    → read_digits (suc k) n (c ∷ s) ≡ some (m, rest)
    → IsDigit c × (read_digits k (n * 10 + (c - b'0')) s ≡ some (m, rest))
unfolding read_digits
read_digits_step k n c m s rest h = ground arith

after_digits_sound :
    (o : Option (ℕ × Str)) (i : ℕ) → after_digits o ≡ some i → o ≡ some (i, codes ".ts")
unfolding after_digits
after_digits_sound none i h = cc
after_digits_sound (some (n, rest)) i h = ground (arith, eq_str_iff rest (codes ".ts"))

read_digits_end :
    (n m : ℕ) (s rest : Str) → read_digits 0 n s ≡ some (m, rest) → (n ≡ m) × (s ≡ rest)
unfolding read_digits
read_digits_end n m s rest h = ground arith

-- five digits, then the extension
five_sound :
    (a b c d e : ℕ) (rest : Str) (i : ℕ)
    → after_digits (read_digits 5 0 (a ∷ b ∷ c ∷ d ∷ e ∷ rest)) ≡ some i
    → (codes "seg" ++ (a ∷ b ∷ c ∷ d ∷ e ∷ rest) ≡ segment_name i) × (i < 100_000)
unfolding segment_name
five_sound a b c d e rest i h =
    let h₀ = after_digits_sound _ i h in
    let (ha, h₁) = read_digits_step 4 _ a i _ _ h₀ in
    let (hb, h₂) = read_digits_step 3 _ b i _ _ h₁ in
    let (hc, h₃) = read_digits_step 2 _ c i _ _ h₂ in
    let (hd, h₄) = read_digits_step 1 _ d i _ _ h₃ in
    let (he, h₅) = read_digits_step 0 _ e i _ _ h₄ in
    let (spelt, ext) = read_digits_end _ i rest _ h₅ in
    let n : i
        ≡ ((((a - b'0') * 10 + (b - b'0')) * 10 + (c - b'0')) * 10 + (d - b'0')) * 10 + (e - b'0') =
      omega (arith, spelt) in
    (rw (pad_five-digits a b c d e i ha hb hc hd he n, ext), small a b c d e i ha hb hc hd he n)

short :
    (s : Str) (i : ℕ)
    → after_digits (read_digits 5 0 s) ≡ some i
    → (a b c d e : ℕ) × (rest : Str) × (s ≡ a ∷ b ∷ c ∷ d ∷ e ∷ rest)
unfolding read_digits after_digits
short (a ∷ b ∷ c ∷ d ∷ e ∷ rest) i h = (a, b, c, d, e, rest, refl)
short (a ∷ b ∷ c ∷ d ∷ []) i h = ground arith
short (a ∷ b ∷ c ∷ []) i h = ground arith
short (a ∷ b ∷ []) i h = ground arith
short (a ∷ []) i h = ground arith
short [] i h = cc

prefix_sound :
    (s e g : ℕ) (rest : Str) (i : ℕ)
    → parse_segment_name (s ∷ e ∷ g ∷ rest) ≡ some i
    → (s ∷ e ∷ g ∷ [] ≡ codes "seg") × (after_digits (read_digits 5 0 rest) ≡ some i)
unfolding parse_segment_name
prefix_sound s e g rest i h = (ground arith, ground arith)

-- A name is accepted only if it is the name of the index that it is read as, one below 100,000.
pub parse_segment_name_sound :
    (name : Str) (i : ℕ)
    → parse_segment_name name ≡ some i
    → (name ≡ segment_name i) × (i < 100_000)
unfolding parse_segment_name
parse_segment_name_sound (s ∷ e ∷ g ∷ tail) i h =
    let (p, q) = prefix_sound s e g tail i h in
    let (a, b, c, d, f, rest, spelled) = short tail i q in
    let (name, bound) = five_sound a b c d f rest i (rw spelled at q) in (cc, bound)
parse_segment_name_sound (s ∷ e ∷ []) i h = cc
parse_segment_name_sound (s ∷ []) i h = cc
parse_segment_name_sound [] i h = cc

-- The digits in front of the five come only from 100,000 on.
digits-length : (f n : ℕ) (out : Str) → length out ≤ length (digits f n out)
unfolding digits
digits-length zero n out = omega arith
digits-length (suc f) n out = ground (arith, digits-length f (n / 10) ((b'0' + n % 10) ∷ out))

digits-longer : (n : ℕ) (out : Str) → 0 < n → suc (length out) ≤ length (digits n n out)
unfolding digits
digits-longer zero out h = absurd (omega arith)
digits-longer (suc f) out h =
    ground (arith, digits-length f (suc f / 10) ((b'0' + suc f % 10) ∷ out))

length-segment_name_small : (i : ℕ) → i < 100_000 → length (segment_name i) ≡ 11
unfolding segment_name
length-segment_name_small i h = let e : i / 100_000 ≡ 0 = omega arith in rw e refl

length-pad_five_wide : (i : ℕ) → 100_000 ≤ i → 6 ≤ length (pad_five i)
unfolding pad_five
length-pad_five_wide i h = digits-longer (i / 100_000) _ (omega arith)

length-segment_name_wide : (i : ℕ) → 100_000 ≤ i → 12 ≤ length (segment_name i)
unfolding segment_name
length-segment_name_wide i h =
    omega (arith, length-append (pad_five i) (codes ".ts"), length-pad_five_wide i h)

-- From index 100,000 on a name has more than five digits, and is not read back at all: there
-- `ParseSegmentName` is not the inverse of `SegmentName`.
pub parse-segment_name_wide : (i : ℕ) → 100_000 ≤ i → parse_segment_name (segment_name i) ≡ none
parse-segment_name_wide i h = elim (Option-cases (parse_segment_name (segment_name i))) [
  | inl e ↦ e
  | inr (j, e) ↦
      let (same, bound) = parse_segment_name_sound (segment_name i) j e in
      absurd (
        omega
          (arith, ap length same, length-segment_name_small j bound, length-segment_name_wide i h))
]
