-- ===== src/Streaming/Names.antt =====
-- `SegmentName` and `ParseSegmentName` (internal/streaming/manifest.go).
pub mod RoundTrip
use vaultflix.Base.Text.{digits, is_digit}
use vaultflix.Base.{
  ℕ, zero, suc, ◌+◌, ◌-◌, ◌*◌, ◌/◌, ◌%◌, Str, codes, eq_str, Bool, true, false, ◌&&◌, leb, ◌==◌,
  if◌then◌else◌, Option, none, some, List, [], ◌∷◌, ◌++◌,
}

-- `%05d`: at least five digits, zeros in front.
unfoldable pub pad_five : ℕ → Str
unfolding digits
pad_five i = digits (i / 100_000) (i / 100_000) (
    (b'0' + i / 10_000 % 10)
    ∷ (b'0' + i / 1000 % 10)
    ∷ (b'0' + i / 100 % 10)
    ∷ (b'0' + i / 10 % 10)
    ∷ (b'0' + i % 10)
    ∷ [])

unfoldable pub segment_name : ℕ → Str
unfolding pad_five
segment_name i = codes "seg" ++ (pad_five i ++ codes ".ts")

-- `(\d{k})`: the number that the next `k` bytes spell behind `n`, and the rest
unfoldable pub read_digits : ℕ → ℕ → Str → Option (ℕ × Str)
read_digits zero n s = some (n, s)
read_digits (suc k) n [] = none
read_digits (suc k) n (c ∷ s) =
    let rest = read_digits k (n * 10 + (c - b'0')) s in if is_digit c then rest else none

after_digits : Option (ℕ × Str) → Option ℕ
unfolding eq_str
after_digits none = none
after_digits (some (n, rest)) = if eq_str rest (codes ".ts") then some n else none

-- `^seg(\d{5})\.ts$`, then `strconv.Atoi`, which five digits never make fail.
unfoldable pub parse_segment_name : Str → Option ℕ
unfolding read_digits after_digits
parse_segment_name (s ∷ e ∷ g ∷ rest) =
    if s == b's' && e == b'e' && g == b'g' then after_digits (read_digits 5 0 rest) else none
parse_segment_name _ = none
