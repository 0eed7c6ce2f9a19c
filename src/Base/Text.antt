-- ===== src/Base/Text.antt =====
-- Functions of Go's `strings` and `strconv` that several modules use, on ASCII text.
use vaultflix.Base.{
  ℕ, zero, suc, ◌+◌, ◌/◌, ◌%◌, Str, codes, has_prefix, is_empty, Bool, true, false, ◌&&◌, ◌||◌, leb,
  ◌==◌, if◌then◌else◌, [], ◌∷◌,
}

abbrev pub is_digit : ℕ → Bool
is_digit c = leb b'0' c && leb c b'9'

is_space : ℕ → Bool
is_space c = c == 32 || leb 9 c && leb c 13

trim_left : Str → Str
unfolding is_space
trim_left [] = []
trim_left (c ∷ s) = let rest = trim_left s in if is_space c then rest else c ∷ s

-- drops the spaces at the end
trim_right : Str → Str
unfolding is_space
trim_right [] = []
trim_right (c ∷ s) = let rest = trim_right s in if is_empty rest && is_space c then [] else c ∷ rest

unfoldable pub trim_space : Str → Str
unfolding trim_left trim_right is_empty
trim_space s = trim_left (trim_right s)

-- `strings.Contains(s, part)`, the part first.
unfoldable pub contains : Str → Str → Bool
unfolding has_prefix
contains part [] = is_empty part
contains part (c ∷ s) = has_prefix part (c ∷ s) || contains part s

-- The decimal digits of a number, none for 0, before `out`; the fuel bounds the digits.
unfoldable pub digits : ℕ → ℕ → Str → Str
digits zero n out = out
digits (suc f) n out = elim (n == 0) [
  | true ↦ out
  | false ↦ digits f (n / 10) ((b'0' + n % 10) ∷ out)
]

-- `strconv.Itoa` of a number that is not negative.
unfoldable pub itoa : ℕ → Str
unfolding digits
itoa n = if n == 0 then codes "0" else digits n n []
