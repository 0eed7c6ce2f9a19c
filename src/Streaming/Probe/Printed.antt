-- ===== src/Streaming/Probe/Printed.antt =====
-- What the parser reads of the lines that ffprobe prints.
use mathlib.Core.Path.{subst}
use vaultflix.Base.Text.{trim_space, contains}
use vaultflix.Lines.{contains-Mem, contains-All, All-absent}
use mathlib.Core.List.{Memᴰ}
use vaultflix.Streaming.Decimal.{parse_float}
use vaultflix.Base.{
  Str, codes, eq_str, eq_str_iff, ◌⊎◌, refl, Option, none, some, Each, Each-map, split, true,
  if◌then◌else◌, List, [], ◌∷◌, ◌++◌, map, append_assoc, append-nil, ◌≡◌, ◌≢◌, ◌↔◌, arith, inl, inr,
  Bool-cases, ◌∙◌, ap, sym,
}
use vaultflix.Base.Int.{ℤ, pos, ltb_ℤ, ◌≤ℤ◌}
use vaultflix.Errors.{Error, Result, ok, err}
use vaultflix.Streaming.Segments.{is_nil}
use vaultflix.Streaming.Probe.{
  Line, key_line, length_line, format_line, timestamp, line_of, probe_loop, parse_keyframe_probe,
}

-- the fields of a line
abbrev pub fields_of : Str → List Str
fields_of line = split b',' (trim_space line) []

-- the lines of an output, as the parser sees them
abbrev pub lines_of : Str → List Line
lines_of out = map (λ line. line_of (fields_of line)) (split 10 out [])

-- the timestamps of the keyframes, in their order
abbrev pub keyframes_of : List Line → List ℤ
keyframes_of [] = []
keyframes_of (Line.keyframe ts ∷ ls) = ts ∷ keyframes_of ls
keyframes_of (Line.length_of d ∷ ls) = keyframes_of ls
keyframes_of (Line.other ∷ ls) = keyframes_of ls

-- the last length that is printed, behind `d`
abbrev pub last_length : ℤ → List Line → ℤ
last_length d [] = d
last_length d (Line.keyframe ts ∷ ls) = last_length d ls
last_length d (Line.length_of e ∷ ls) = last_length e ls
last_length d (Line.other ∷ ls) = last_length d ls

abbrev parsed : List Str → List Line
parsed lines = map (λ line. line_of (fields_of line)) lines

-- what one line adds
of_line :
    (l : Line) (ls : List Line) (loop : List ℤ → ℤ → List ℤ × ℤ)
    → ((kf : List ℤ) (total : ℤ) → loop kf total ≡ (kf ++ keyframes_of ls, last_length total ls))
    → (kf : List ℤ) (total : ℤ)
    → (elim l [
      | Line.keyframe ts ↦ loop (kf ++ ts ∷ []) total
      | Line.length_of d ↦ loop kf d
      | Line.other ↦ loop kf total
    ])
      ≡ (kf ++ keyframes_of (l ∷ ls), last_length total (l ∷ ls))
of_line (Line.keyframe ts) ls loop h kf total =
    h (kf ++ ts ∷ []) total
    ∙ ap (λ k. (k, last_length total ls)) (append_assoc kf (ts ∷ []) (keyframes_of ls))
of_line (Line.length_of d) ls loop h kf total = h kf d
of_line Line.other ls loop h kf total = h kf total

probe_loop_lem :
    (lines : List Str) (kf : List ℤ) (total : ℤ)
    → probe_loop lines kf total
      ≡ (kf ++ keyframes_of (parsed lines), last_length total (parsed lines))
unfolding probe_loop
probe_loop_lem [] kf total = ap (λ k. (k, total)) (sym (append-nil kf))
probe_loop_lem (line ∷ lines) kf total =
    of_line (line_of (split b',' (trim_space line) [])) (parsed lines) (probe_loop lines)
      (probe_loop_lem lines) kf total

-- The fields of a line that prints a keyframe at a time: a packet with the flag `K`, and the time is
-- its pts, or its dts where its pts is no number.
abbrev pub IsKeyframe : List Str → ℤ → Type 0
IsKeyframe fields ts =
    (pts : Str) × (dts : Str) × (flags : Str) × (rest : List Str) × (fields
      ≡ codes "packet" ∷ pts ∷ dts ∷ flags ∷ rest)
    × Memᴰ b'K' flags
    × ((parse_float pts ≡ some ts) ⊎ (parse_float pts ≡ none) × (parse_float dts ≡ some ts))

-- The fields of a line that prints a length.
abbrev pub IsLength : List Str → ℤ → Type 0
IsLength fields d =
    (text : Str) × (rest : List Str) × (fields ≡ codes "format" ∷ text ∷ rest)
    × (parse_float text ≡ some d)

-- What a line says of the file, by its fields, and nothing where it prints neither of the two.
abbrev pub Says : List Str → Line → Type 0
Says fields (Line.keyframe ts) = IsKeyframe fields ts
Says fields (Line.length_of d) = IsLength fields d
Says fields Line.other = ((ts : ℤ) → IsKeyframe fields ts → ⊥) × ((d : ℤ) → IsLength fields d → ⊥)

length_line-Says :
    (d : Str) (rest : List Str) (o : Option ℤ)
    → parse_float d ≡ o
    → ((ts : ℤ) → IsKeyframe (codes "format" ∷ d ∷ rest) ts → ⊥)
    → Says (codes "format" ∷ d ∷ rest) (length_line o)
length_line-Says d rest none e never = (never, λ t (text, r, f, p). cc (e, f, p))
length_line-Says d rest (some t) e never = (d, rest, refl, e)

format_line-Says :
    (fields : List Str) → ((ts : ℤ) → IsKeyframe fields ts → ⊥) → Says fields (format_line fields)
unfolding format_line
format_line-Says [] never = (never, λ d (t, r, e, _). cc e)
format_line-Says (kind ∷ []) never = (never, λ d (t, r, e, _). cc e)
format_line-Says (kind ∷ d ∷ rest) never = elim (Bool-cases (eq_str kind (codes "format"))) [
  | inl e ↦
      let k = (eq_str_iff kind (codes "format")).0 e in
      rw (e, format_line)
        (subst (λ w. Says (w ∷ d ∷ rest) (length_line (parse_float d))) (sym k)
          (length_line-Says d rest _ refl
            (subst (λ w. (ts : ℤ) → IsKeyframe (w ∷ d ∷ rest) ts → ⊥) k never)))
  | inr e ↦
      rw (e, format_line)
        (never, λ t (text, r, f, p). cc (e, (eq_str_iff kind (codes "format")).1 cc))
]

first_of : List Str → Str
first_of [] = []
first_of (x ∷ xs) = x

packet_not_format : (xs ys : List Str) → codes "packet" ∷ xs ≡ codes "format" ∷ ys → ⊥
unfolding eq_str first_of
packet_not_format xs ys g = cc (ap (λ f. eq_str (first_of f) (codes "packet")) g)

-- A packet with the flag, whatever its two times are read as.
key_line-Says :
    (pts dts flags : Str) (rest : List Str) (p d : Option ℤ)
    → parse_float pts ≡ p
    → parse_float dts ≡ d
    → Memᴰ b'K' flags
    → Says
        (codes "packet" ∷ pts ∷ dts ∷ flags ∷ rest)
        (key_line (elim p [ some ts ↦ some ts | none ↦ d ]))
key_line-Says pts dts flags rest (some t) d e f k = (pts, dts, flags, rest, refl, k, inl e)
key_line-Says pts dts flags rest none (some t) e f k = (pts, dts, flags, rest, refl, k, inr (e, f))
key_line-Says pts dts flags rest none none e f k = (
  λ ts (a, b, c, r, g, _, s). elim s [
    | inl p ↦ let z : pts ≡ a = cc g in cc (e, p, z)
    | inr (_, p) ↦ let z : dts ≡ b = cc g in cc (f, p, z)
  ],
  λ t (text, r, g, _). packet_not_format _ _ g,
)

packet-Says :
    (pts dts flags : Str) (rest : List Str)
    → Says
        (codes "packet" ∷ pts ∷ dts ∷ flags ∷ rest)
        (if contains (codes "K") flags then key_line (timestamp pts dts) else Line.other)
unfolding timestamp
packet-Says pts dts flags rest = elim (Bool-cases (contains (codes "K") flags)) [
  | inl e ↦ rw e (key_line-Says pts dts flags rest _ _ refl refl (contains-Mem b'K' flags e))
  | inr e ↦ rw e (
    λ ts (a, b, c, r, g, m, _).
        let z : flags ≡ c = cc g in
        All-absent b'K' flags (contains-All b'K' flags e) (subst (λ x. Memᴰ b'K' x) (sym z) m),
    λ t (text, r, g, _). packet_not_format _ _ g,
  )
]

line_of-Says : (fields : List Str) → Says fields (line_of fields)
unfolding line_of
line_of-Says [] = format_line-Says [] (λ ts (a, b, c, d, e, _, _). cc e)
line_of-Says (x ∷ []) = format_line-Says (x ∷ []) (λ ts (a, b, c, d, e, _, _). cc e)
line_of-Says (x ∷ y ∷ []) = format_line-Says (x ∷ y ∷ []) (λ ts (a, b, c, d, e, _, _). cc e)
line_of-Says (x ∷ y ∷ z ∷ []) = format_line-Says (x ∷ y ∷ z ∷ []) (λ ts (a, b, c, d, e, _, _). cc e)
line_of-Says (kind ∷ pts ∷ dts ∷ flags ∷ rest) = elim (Bool-cases (eq_str kind (codes "packet"))) [
  | inl e ↦
      rw (e, line_of)
        (subst
          (λ w.
            Says (w ∷ pts ∷ dts ∷ flags ∷ rest)
              (if contains (codes "K") flags then key_line (timestamp pts dts) else Line.other))
          (sym ((eq_str_iff kind (codes "packet")).0 e)) (packet-Says pts dts flags rest))
  | inr e ↦
      rw (e, line_of)
        (format_line-Says (kind ∷ pts ∷ dts ∷ flags ∷ rest)
          (λ ts (a, b, c, d, g, _, _). cc (e, (eq_str_iff kind (codes "packet")).1 cc)))
]

-- The keyframes and the length that a probe printed: those of its lines, both there.
abbrev pub IsProbe : List Line → List ℤ → ℤ → Type 0
IsProbe ls kf total =
    (keyframes_of ls ≡ kf) × (last_length (pos 0) ls ≡ total) × (kf ≢ []) × (pos 1 ≤ℤ total)

accepted : List ℤ → ℤ → Result (List ℤ × ℤ)
accepted kf total =
    if is_nil kf
    then err Error.plain
    else if ltb_ℤ (pos 0) total
    then ok (kf, total)
    else err Error.plain

positive_iff : (d : ℤ) → (ltb_ℤ (pos 0) d ≡ true) ↔ (pos 1 ≤ℤ d)
positive_iff d = (λ h. ground arith, λ h. ground arith)

accepted_iff :
    (k kf : List ℤ) (d total : ℤ)
    → (accepted k d ≡ ok (kf, total)) ↔ ((k ≡ kf) × (d ≡ total) × (kf ≢ []) × (pos 1 ≤ℤ total))
unfolding accepted
accepted_iff [] kf d total = (λ h. cc h, λ (e, _, n, _). absurd (n (sym e)))
accepted_iff (x ∷ k) kf d total = elim (Bool-cases (ltb_ℤ (pos 0) d)) [
  | inr e ↦ rw e (λ h. cc h, λ (_, f, _, p). cc (e, (positive_iff d).1 (rw f p)))
  | inl e ↦ rw e (
    λ h. let f : d ≡ total = cc h in (cc h, f, λ z. cc (h, z), rw (sym f) ((positive_iff d).0 e)),
    λ (k_, f, _, _). cc (k_, f),
  )
]

-- A probe is read exactly when its output has a keyframe and its last length is positive; what is
-- read is the timestamps of all its keyframes, in their order, and that length. A line is that of a
-- keyframe exactly where it is a packet with the flag `K` whose pts, or else dts, is a number, and
-- that of a length exactly where it is of the format and has a number.
pub parse_keyframe_probe-IsProbe :
    (out : Str) (kf : List ℤ) (total : ℤ)
    → Each (λ line. Says (fields_of line)) (split 10 out []) (lines_of out)
      × ((parse_keyframe_probe out ≡ ok (kf, total)) ↔ IsProbe (lines_of out) kf total)
unfolding parse_keyframe_probe accepted
parse_keyframe_probe-IsProbe out kf total = (
  Each-map (λ line. Says (fields_of line)) (λ line. line_of (fields_of line))
      (λ line. line_of-Says (fields_of line)) (split 10 out []),
  rw (parse_keyframe_probe, probe_loop_lem (split 10 out []) [] (pos 0))
      (accepted_iff (keyframes_of (lines_of out)) kf (last_length (pos 0) (lines_of out)) total),
)
