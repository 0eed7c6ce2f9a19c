-- ===== src/Base/Bytes.antt =====
-- A Go string is the list of its code points, which are its bytes where it is ASCII. Comparison and
-- the prefix test are loops over them.
use Prim.Native.Nat.{ℕ, ◌+◌}
use Prim.Native.Char.{code}
use Prim.Native.String.{String}
use mathlib.Core.Path.{◌≡◌, refl}
use mathlib.Core.Logic.{◌↔◌}
use mathlib.Core.Bool.{Bool, true, false, ◌&&◌}
use mathlib.Core.List.{List, [], ◌∷◌, ◌++◌}
use native.Mathlib.Omega.{arith}
use vaultflix.Base.Tests.{◌==◌, leb, if◌then◌else◌}

abbrev pub Str : Type 0
Str = List ℕ

abbrev pub codes : String → Str
codes String.[] = []
codes (String.◌∷◌ c s) = code c ∷ codes s

unfoldable pub eq_str : Str → Str → Bool
eq_str [] [] = true
eq_str [] (d ∷ t) = false
eq_str (c ∷ s) [] = false
eq_str (c ∷ s) (d ∷ t) = (c == d) && eq_str s t

to_eq : (s t : Str) → eq_str s t ≡ true → s ≡ t
unfolding eq_str
to_eq [] [] h = refl
to_eq [] (d ∷ t) h = cc
to_eq (c ∷ s) [] h = cc
to_eq (c ∷ s) (d ∷ t) h = ground (arith, to_eq s t)

pub eq_str_refl : (s : Str) → eq_str s s ≡ true
unfolding eq_str
eq_str_refl [] = refl
eq_str_refl (c ∷ s) = ground (arith, eq_str_refl s)

of_eq : (s t : Str) → s ≡ t → eq_str s t ≡ true
of_eq s t e = cc (eq_str_refl s)

pub eq_str_iff : (s t : Str) → (eq_str s t ≡ true) ↔ (s ≡ t)
eq_str_iff s t = (to_eq s t, of_eq s t)

-- `strings.HasPrefix(s, p)`, the prefix first.
unfoldable pub has_prefix : Str → Str → Bool
has_prefix [] s = true
has_prefix (c ∷ p) [] = false
has_prefix (c ∷ p) (d ∷ s) = (c == d) && has_prefix p s

-- `s == ""`
unfoldable pub is_empty : Str → Bool
is_empty [] = true
is_empty (c ∷ s) = false

pub is_empty_iff : (s : Str) → (is_empty s ≡ true) ↔ (s ≡ [])
unfolding is_empty
is_empty_iff [] = (λ _. refl, λ _. refl)
is_empty_iff (c ∷ s) = (λ e. cc, λ e. cc)

-- `strings.ToLower`, on ASCII text.
lower : ℕ → ℕ
lower c = if leb b'A' c && leb c b'Z' then c + 32 else c

unfoldable pub to_lower : Str → Str
unfolding lower
to_lower [] = []
to_lower (c ∷ s) = lower c ∷ to_lower s

-- `strings.Split`: the part so far in front.
unfoldable pub split : ℕ → Str → Str → List Str
split sep [] cur = cur ∷ []
split sep (c ∷ s) cur = elim (c == sep) [
  | true ↦ cur ∷ split sep s []
  | false ↦ split sep s (cur ++ c ∷ [])
]
