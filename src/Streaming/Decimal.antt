-- ===== src/Streaming/Decimal.antt =====
-- `strconv.ParseFloat` and `strconv.FormatFloat(v, 'f', 6, 64)`, as the streaming code uses them:
-- on decimals, a number being its count of millionths, without the rounding of float64. ffmpeg and
-- ffprobe print at most six places; further places are dropped, and exponents, infinities and NaN,
-- which they do not print, are not read.
use vaultflix.Base.Text.{is_digit, itoa}
use vaultflix.Lines.{IsLine, itoa-IsLine}
use vaultflix.Base.{
  All-append, ◌≢◌, ℕ, zero, suc, ◌+◌, ◌-◌, ◌*◌, ◌/◌, ◌%◌, ◌^◌, Str, is_empty, Bool, true, false,
  ◌&&◌, ◌||◌, not, ◌==◌, if◌then◌else◌, Option, none, some, [], ◌∷◌, ◌++◌, arith,
}
use vaultflix.Base.Int.{ℤ, pos, negsuc}

-- the number `n`, of which `k` places are still to come
fraction : ℕ → ℕ → Str → Option ℕ
fraction k n [] = some (n * 10 ^ k)
fraction zero n (c ∷ s) = let rest = fraction zero n s in if is_digit c then rest else none
fraction (suc k) n (c ∷ s) =
    let rest = fraction k (n * 10 + (c - b'0')) s in if is_digit c then rest else none

-- the digits before the point; `seen` says that there was one
mantissa : Bool → ℕ → Str → Option ℕ
unfolding fraction is_empty
mantissa seen n [] = if seen then some (n * 1_000_000) else none
mantissa seen n (c ∷ s) =
    let rest = mantissa true (n * 10 + (c - b'0')) s in
    if is_digit c
    then rest
    else if c == b'.' && (seen || not (is_empty s))
    then fraction 6 n s
    else none

negated : ℕ → ℤ
negated zero = pos 0
negated (suc n) = negsuc n

minus : Option ℕ → Option ℤ
unfolding negated
minus none = none
minus (some n) = some (negated n)

plus : Option ℕ → Option ℤ
plus none = none
plus (some n) = some (pos n)

unfoldable pub parse_float : Str → Option ℤ
unfolding mantissa minus plus
parse_float [] = none
parse_float (c ∷ s) =
    if c == b'-'
    then minus (mantissa false 0 s)
    else if c == b'+'
    then plus (mantissa false 0 s)
    else plus (mantissa false 0 (c ∷ s))

six_places : ℕ → Str
six_places n =
    (b'0' + n / 100_000 % 10)
    ∷ (b'0' + n / 10_000 % 10)
    ∷ (b'0' + n / 1000 % 10)
    ∷ (b'0' + n / 100 % 10)
    ∷ (b'0' + n / 10 % 10)
    ∷ (b'0' + n % 10)
    ∷ []

fixed : ℕ → Str
unfolding itoa six_places
fixed n = itoa (n / 1_000_000) ++ b'.' ∷ six_places n

-- `formatSeconds`
unfoldable pub format_seconds : ℤ → Str
unfolding fixed
format_seconds (pos n) = fixed n
format_seconds (negsuc n) = b'-' ∷ fixed (suc n)

six_places-IsLine : (n : ℕ) → IsLine (six_places n)
unfolding six_places
six_places-IsLine n = (
  λ z. absurd (omega (arith, z)),
  (
    λ z. absurd (omega (arith, z)),
    (
      λ z. absurd (omega (arith, z)),
      (
        λ z. absurd (omega (arith, z)),
        (λ z. absurd (omega (arith, z)), (λ z. absurd (omega (arith, z)), tt)),
      ),
    ),
  ),
)

fixed-IsLine : (n : ℕ) → IsLine (fixed n)
unfolding fixed
fixed-IsLine n =
    All-append (λ c. c ≢ 10) (itoa (n / 1_000_000)) (b'.' ∷ six_places n)
      (itoa-IsLine (n / 1_000_000)) (λ z. cc z, six_places-IsLine n)

-- A time is printed on one line.
pub format_seconds-IsLine : (v : ℤ) → IsLine (format_seconds v)
unfolding format_seconds
format_seconds-IsLine (pos n) = fixed-IsLine n
format_seconds-IsLine (negsuc n) = (λ z. cc z, fixed-IsLine (suc n))
