-- ===== src/Handlers/Hls/Tokens.antt =====
-- What a rewritten playlist says.
use mathlib.Core.List.{Memᴰ}
use vaultflix.Base.Text.{contains}
use vaultflix.Lines.{
  IsLine, not_same, breakless, breakless-IsLine, split-line, contains-Mem, contains-All,
}
use vaultflix.Base.{
  ℕ, ◌+◌, ◌-◌, ◌*◌, ◌/◌, ◌%◌, ◌<◌, leb, if◌then◌else◌, Each, Each-map, ◌⊎◌, Str, codes, has_prefix,
  is_empty, split, true, false, ◌||◌, ◌==◌, List, [], ◌∷◌, ◌++◌, All, All-append, map, ◌≡◌, ◌≢◌,
  refl, arith, inl, inr, Bool-cases, sym, ap, ◌∙◌,
}
use vaultflix.Handlers.Hls.{
  is_unreserved, hex_digit, query_escape, drop_cr, scan, with_token, write_lines,
  rewrite_playlist_tokens,
}

hex_digit-not : (n : ℕ) → n < 16 → hex_digit n ≢ 10
hex_digit-not n h e = absurd (ground arith)

unreserved-not : (c : ℕ) → is_unreserved c ≡ true → c ≢ 10
unreserved-not c e z = absurd (cc (rw z at e))

query_escape-IsLine : (s : Str) → IsLine (query_escape s)
unfolding query_escape
query_escape-IsLine [] = tt
query_escape-IsLine (c ∷ s) = elim (Bool-cases (is_unreserved c)) [
  | inl e ↦ rw e (unreserved-not c e, query_escape-IsLine s)
  | inr e ↦ elim (Bool-cases (c == 32)) [
    | inl f ↦ rw (e, f) (λ z. absurd (omega (arith, z)), query_escape-IsLine s)
    | inr f ↦
        rw (e, f)
          (
            λ z. absurd (omega (arith, z)),
            (
              hex_digit-not (c / 16 % 16) (omega arith),
              (hex_digit-not (c % 16) (omega arith), query_escape-IsLine s),
            ),
          )
  ]
]

drop_cr-IsLine : (s : Str) → IsLine s → IsLine (drop_cr s)
unfolding drop_cr
drop_cr-IsLine [] h = tt
drop_cr-IsLine (c ∷ []) h = elim (Bool-cases (c == 13)) [ inl e ↦ rw e tt | inr e ↦ rw e h ]
drop_cr-IsLine (c ∷ d ∷ s) (h, k) = (h, drop_cr-IsLine (d ∷ s) k)

-- a literal and the token behind a line
behind :
    (line literal escaped : Str)
    → breakless literal ≡ true
    → IsLine line
    → IsLine escaped
    → IsLine (line ++ literal ++ escaped)
behind line literal escaped b l e =
    All-append (λ c. c ≢ 10) (line ++ literal) escaped
      (All-append (λ c. c ≢ 10) line literal l (breakless-IsLine literal b)) e

scan-IsLine : (cur s : Str) → IsLine cur → All IsLine (scan cur s)
unfolding scan is_empty
scan-IsLine cur [] h = elim (Bool-cases (is_empty cur)) [
  | inl e ↦ rw e tt
  | inr e ↦ rw e (drop_cr-IsLine cur h, tt)
]
scan-IsLine cur (c ∷ s) h = elim (Bool-cases (c == 10)) [
  | inl e ↦ rw (e, All) (drop_cr-IsLine cur h, scan-IsLine [] s tt)
  | inr e ↦
      rw (e, All)
        (scan-IsLine (cur ++ c ∷ []) s (All-append (λ c. c ≢ 10) cur (c ∷ []) h (not_same c e, tt)))
]

with_token-IsLine :
    (escaped line : Str) → IsLine escaped → IsLine line → IsLine (with_token escaped line)
unfolding with_token breakless
with_token-IsLine escaped line e l =
    elim (Bool-cases (is_empty line || has_prefix (codes "#") line)) [
      | inl h ↦ rw (h, with_token) l
      | inr h ↦ elim (Bool-cases (contains (codes "?") line)) [
        | inl q ↦ rw (h, q, with_token) (behind line (codes "&token=") escaped refl l e)
        | inr q ↦ rw (h, q, with_token) (behind line (codes "?token=") escaped refl l e)
      ]
    ]

split-write_lines :
    (escaped : Str) (lines : List Str)
    → IsLine escaped
    → All IsLine lines
    → split 10 (write_lines escaped lines) [] ≡ map (with_token escaped) lines ++ [] ∷ []
unfolding write_lines split
split-write_lines escaped [] e h = refl
split-write_lines escaped (l ∷ ls) e (h, k) =
    split-line (with_token escaped l) (write_lines escaped ls) [] (with_token-IsLine escaped l e h)
    ∙ ap (λ r. with_token escaped l ∷ r) (split-write_lines escaped ls e k)

-- What the escape of a query is read back as.
abbrev hex_value : ℕ → ℕ
hex_value c = if leb b'A' c then c - b'A' + 10 else c - b'0'

unfoldable pub query_unescape : Str → Str
query_unescape [] = []
query_unescape (c ∷ []) = (if c == b'+' then 32 else c) ∷ []
query_unescape (c ∷ a ∷ []) = (if c == b'+' then 32 else c) ∷ query_unescape (a ∷ [])
query_unescape (c ∷ a ∷ b ∷ s) =
    let plain = query_unescape (a ∷ b ∷ s) in
    let rest = query_unescape s in
    if c == b'%'
    then (hex_value a * 16 + hex_value b) ∷ rest
    else (if c == b'+' then 32 else c) ∷ plain

unescape-plain :
    (c : ℕ) (s : Str)
    → (c == b'%') ≡ false
    → (c == b'+') ≡ false
    → query_unescape (c ∷ s) ≡ c ∷ query_unescape s
unfolding query_unescape
unescape-plain c [] h k = rw k refl
unescape-plain c (a ∷ []) h k = rw k refl
unescape-plain c (a ∷ b ∷ s) h k = rw (h, k) refl

unescape-plus : (s : Str) → query_unescape (b'+' ∷ s) ≡ 32 ∷ query_unescape s
unfolding query_unescape
unescape-plus [] = refl
unescape-plus (a ∷ []) = refl
unescape-plus (a ∷ b ∷ s) = refl

hex_value-digit : (n : ℕ) → n < 16 → hex_value (hex_digit n) ≡ n
hex_value-digit n h = ground arith

unescape-hex :
    (c : ℕ) (s : Str)
    → c < 256
    → query_unescape (b'%' ∷ hex_digit (c / 16 % 16) ∷ hex_digit (c % 16) ∷ s)
      ≡ c ∷ query_unescape s
unfolding query_unescape
unescape-hex c s h =
    let e : hex_value (hex_digit (c / 16 % 16)) * 16 + hex_value (hex_digit (c % 16)) ≡ c =
      rw (hex_value-digit (c / 16 % 16) (omega arith), hex_value-digit (c % 16) (omega arith))
        (omega (arith, h)) in
    ap (λ x. x ∷ query_unescape s) e

unreserved_plain : (c k : ℕ) → is_unreserved c ≡ true → is_unreserved k ≡ false → (c == k) ≡ false
unreserved_plain c k h u = elim (Bool-cases (c == k)) [
  | inr e ↦ e
  | inl e ↦ let z : c ≡ k = ground (arith, e) in absurd (cc (h, u, z))
]

abbrev pub IsBytes : Str → Type 0
IsBytes s = All (λ c. c < 256) s

unescape-query_escape : (s : Str) → IsBytes s → query_unescape (query_escape s) ≡ s
unfolding query_escape query_unescape
unescape-query_escape [] h = refl
unescape-query_escape (c ∷ s) (h, k) = elim (Bool-cases (is_unreserved c)) [
  | inl e ↦ rw e (
      unescape-plain c (query_escape s) (unreserved_plain c b'%' e refl)
        (unreserved_plain c b'+' e refl)
      ∙ ap (λ x. c ∷ x) (unescape-query_escape s k))
  | inr e ↦ elim (Bool-cases (c == 32)) [
    | inl f ↦
        let z : c ≡ 32 = ground (arith, f) in
        rw (e, f)
          (unescape-plus (query_escape s)
            ∙ ap (λ x. x ∷ query_unescape (query_escape s)) (sym z)
            ∙ ap (λ x. c ∷ x) (unescape-query_escape s k))
    | inr f ↦
        rw (e, f) (unescape-hex c (query_escape s) h ∙ ap (λ x. c ∷ x) (unescape-query_escape s k))
  ]
]

-- A line that names no file: an empty one or a comment.
abbrev pub IsComment : Str → Type 0
IsComment line = (line ≡ []) ⊎ ((s : Str) × (line ≡ b'#' ∷ s))

-- Any other.
abbrev pub IsUri : Str → Type 0
IsUri line = (c : ℕ) × (s : Str) × (line ≡ c ∷ s) × (c ≢ b'#')

-- A line as it is written: a URI gets the token behind it, as the first parameter of its query or
-- as a further one.
abbrev pub IsRewritten : Str → Str → Str → Type 0
IsRewritten escaped line out =
    IsComment line × (out ≡ line)
    ⊎ IsUri line × Memᴰ b'?' line × (out ≡ line ++ codes "&token=" ++ escaped)
    ⊎ IsUri line × All (λ c. c ≢ b'?') line × (out ≡ line ++ codes "?token=" ++ escaped)

with_token-IsRewritten : (escaped line : Str) → IsRewritten escaped line (with_token escaped line)
unfolding with_token is_empty has_prefix
with_token-IsRewritten escaped [] = inl (inl refl, refl)
with_token-IsRewritten escaped (c ∷ s) = elim (Bool-cases (b'#' == c)) [
  | inl e ↦
      let z : c ≡ b'#' = ground (arith, e) in
      inl (inr (s, ap (λ x. x ∷ s) z), rw (e, with_token) refl)
  | inr e ↦
      let uri : IsUri (c ∷ s) = (c, s, refl, λ z. ground (arith, e, z)) in
      elim (Bool-cases (contains (codes "?") (c ∷ s))) [
        | inl q ↦ inr (inl (uri, contains-Mem b'?' (c ∷ s) q, rw (e, q, with_token) refl))
        | inr q ↦ inr (inr (uri, contains-All b'?' (c ∷ s) q, rw (e, q, with_token) refl))
      ]
]

-- The playlist that is sent for a token that is not empty and is a text of bytes has exactly the
-- lines that were read, in their order, each with a line break at its end. Empty lines and comments are unchanged, and
-- every other has behind it `?token=`, or `&token=` where it holds a `?`, and a text that a query
-- reads back as the token.
pub rewrite-tokens :
    (raw token : Str)
    → token ≢ []
    → IsBytes token
    → (escaped : Str) × (query_unescape escaped ≡ token)
      × ((outs : List Str) × Each (IsRewritten escaped) (scan [] raw) outs
          × (split 10 (rewrite_playlist_tokens raw token) [] ≡ outs ++ [] ∷ []))
unfolding rewrite_playlist_tokens is_empty
rewrite-tokens raw [] h b = absurd (h refl)
rewrite-tokens raw (c ∷ token) h b = (
  query_escape (c ∷ token),
  unescape-query_escape (c ∷ token) b,
  (
    map (with_token (query_escape (c ∷ token))) (scan [] raw),
    Each-map (IsRewritten (query_escape (c ∷ token))) (with_token (query_escape (c ∷ token)))
        (with_token-IsRewritten (query_escape (c ∷ token))) (scan [] raw),
    split-write_lines (query_escape (c ∷ token)) (scan [] raw) (query_escape-IsLine (c ∷ token))
        (scan-IsLine [] raw tt),
  ),
)
