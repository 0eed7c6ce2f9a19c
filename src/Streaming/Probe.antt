-- ===== src/Streaming/Probe.antt =====
-- `parseKeyframeProbe` (internal/streaming/keyframe_probe.go): the packets and the length that
-- ffprobe prints. A time is a number of microseconds.
pub mod Printed
use vaultflix.Base.Text.{contains, trim_space}
use vaultflix.Base.{
  Str, codes, eq_str, split, Bool, true, false, ltb, if◌then◌else◌, Option, none, some, List, [],
  ◌∷◌, ◌++◌,
}
use vaultflix.Base.Int.{ℤ, pos, ltb_ℤ}
use vaultflix.Errors.{Error, Result, ok, err}
use vaultflix.Streaming.Segments.{is_nil}
use vaultflix.Streaming.Decimal.{parse_float}

-- pts, or dts where there is no pts
unfoldable pub timestamp : Str → Str → Option ℤ
unfolding parse_float
timestamp pts dts = elim (parse_float pts) [ some ts ↦ some ts | none ↦ parse_float dts ]

-- What a line says: `packet,<pts>,<dts>,<flags>` or `format,<duration>`.
pub data Line : Type 0 where
  keyframe : ℤ → Line
  length_of : ℤ → Line
  other : Line

abbrev key_line : Option ℤ → Line
key_line none = Line.other
key_line (some ts) = Line.keyframe ts

abbrev length_line : Option ℤ → Line
length_line none = Line.other
length_line (some d) = Line.length_of d

format_line : List Str → Line
unfolding eq_str parse_float
format_line (kind ∷ d ∷ _) =
    if eq_str kind (codes "format") then length_line (parse_float d) else Line.other
format_line _ = Line.other

-- The two cases of the switch, on the fields of a line.
unfoldable pub line_of : List Str → Line
unfolding eq_str contains timestamp format_line
line_of (kind ∷ pts ∷ dts ∷ flags ∷ rest) =
    if eq_str kind (codes "packet")
    then if contains (codes "K") flags then key_line (timestamp pts dts) else Line.other
    else format_line (kind ∷ pts ∷ dts ∷ flags ∷ rest)
line_of fields = format_line fields

-- The loop over the lines.
unfoldable pub probe_loop : List Str → List ℤ → ℤ → List ℤ × ℤ
unfolding line_of split trim_space
probe_loop [] kf total = (kf, total)
probe_loop (line ∷ lines) kf total = elim (line_of (split b',' (trim_space line) [])) [
  | Line.keyframe ts ↦ probe_loop lines (kf ++ ts ∷ []) total
  | Line.length_of d ↦ probe_loop lines kf d
  | Line.other ↦ probe_loop lines kf total
]

unfoldable pub parse_keyframe_probe : Str → Result (List ℤ × ℤ)
unfolding probe_loop split
parse_keyframe_probe out =
    let (kf, total) = probe_loop (split 10 out []) [] (pos 0) in
    if is_nil kf
    then err Error.plain
    else if ltb_ℤ (pos 0) total
    then ok (kf, total)
    else err Error.plain
