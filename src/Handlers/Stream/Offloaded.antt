-- ===== src/Handlers/Stream/Offloaded.antt =====
-- Which file nginx is told to send.
use vaultflix.Base.{
  ℕ, ◌+◌, ◌-◌, ◌*◌, ◌/◌, ◌%◌, ◌<◌, Str, eq_str, eq_str_iff, has_prefix, is_empty, split, true,
  false, ◌&&◌, not, leb, ◌==◌, if◌then◌else◌, List, [], ◌∷◌, ◌++◌, All, map, All-append, ◌⊎◌,
  append_assoc, append-nil, ◌≡◌, refl, arith, inl, inr, Bool-cases, sym, ap, ◌∙◌,
}
use vaultflix.Handlers.Hls.{hex_digit}
use vaultflix.Handlers.Stream.{
  is_kept, path_escape, join_slash, encode_path_segments, trim_prefix, Sent, send_file,
}

-- the value of a hexadecimal digit, as an unescape reads it
abbrev hex_value : ℕ → ℕ
hex_value c = if leb b'A' c then c - b'A' + 10 else c - b'0'

-- How nginx undoes the escapes of a path.
unfoldable pub unescape : Str → Str
unescape [] = []
unescape (c ∷ []) = c ∷ []
unescape (c ∷ a ∷ []) = c ∷ a ∷ []
unescape (c ∷ a ∷ b ∷ s) =
    let plain = unescape (a ∷ b ∷ s) in
    let rest = unescape s in
    if c == b'%' then (hex_value a * 16 + hex_value b) ∷ rest else c ∷ plain

unescape-plain : (c : ℕ) (s : Str) → (c == b'%') ≡ false → unescape (c ∷ s) ≡ c ∷ unescape s
unfolding unescape
unescape-plain c [] h = refl
unescape-plain c (a ∷ []) h = refl
unescape-plain c (a ∷ b ∷ s) h = rw h refl

hex_value-digit : (n : ℕ) → n < 16 → hex_value (hex_digit n) ≡ n
hex_value-digit n h = ground arith

unescape-hex :
    (c : ℕ) (s : Str)
    → c < 256
    → unescape (b'%' ∷ hex_digit (c / 16 % 16) ∷ hex_digit (c % 16) ∷ s) ≡ c ∷ unescape s
unfolding unescape
unescape-hex c s h =
    let e : hex_value (hex_digit (c / 16 % 16)) * 16 + hex_value (hex_digit (c % 16)) ≡ c =
      rw (hex_value-digit (c / 16 % 16) (omega arith), hex_value-digit (c % 16) (omega arith))
        (omega (arith, h)) in
    ap (λ x. x ∷ unescape s) e

kept-plain : (c : ℕ) → is_kept c ≡ true → (c == b'%') ≡ false
kept-plain c h = elim (Bool-cases (c == b'%')) [
  | inr e ↦ e
  | inl e ↦ let z : c ≡ b'%' = ground (arith, e) in absurd (cc (rw z at h))
]

abbrev pub IsBytes : Str → Type 0
IsBytes s = All (λ c. c < 256) s

unescape-path_escape :
    (s rest : Str) → IsBytes s → unescape (path_escape s ++ rest) ≡ s ++ unescape rest
unfolding path_escape
unescape-path_escape [] rest h = refl
unescape-path_escape (c ∷ s) rest (h, k) = elim (Bool-cases (is_kept c)) [
  | inl e ↦ rw e (
      unescape-plain c (path_escape s ++ rest) (kept-plain c e)
      ∙ ap (λ x. c ∷ x) (unescape-path_escape s rest k))
  | inr e ↦
      rw e
        (unescape-hex c (path_escape s ++ rest) h ∙ ap (λ x. c ∷ x) (unescape-path_escape s rest k))
]

unescape-slash : (s : Str) → unescape (b'/' ∷ s) ≡ b'/' ∷ unescape s
unescape-slash s = unescape-plain b'/' s refl

unescape-join :
    (ps : List Str) → All IsBytes ps → unescape (join_slash (map path_escape ps)) ≡ join_slash ps
unfolding join_slash unescape
unescape-join [] h = refl
unescape-join (p ∷ []) (h, _) =
    ap unescape (sym (append-nil (path_escape p))) ∙ unescape-path_escape p [] h ∙ append-nil p
unescape-join (p ∷ q ∷ ps) (h, k) =
    unescape-path_escape p (b'/' ∷ join_slash (map path_escape (q ∷ ps))) h
    ∙ ap (λ r. p ++ r)
        (unescape-slash (join_slash (map path_escape (q ∷ ps)))
          ∙ ap (λ r. b'/' ∷ r) (unescape-join (q ∷ ps) k))

split-there : (s cur : Str) → (p : Str) × (ps : List Str) × (split b'/' s cur ≡ p ∷ ps)
unfolding split
split-there [] cur = (cur, [], refl)
split-there (c ∷ s) cur = elim (Bool-cases (c == b'/')) [
  | inl e ↦ (cur, split b'/' s [], rw (e, split) refl)
  | inr e ↦ let (p, ps, h) = split-there s (cur ++ c ∷ []) in (p, ps, rw (e, split) h)
]

join-cons :
    (p : Str) (s : Str)
    → join_slash (p ∷ split b'/' s []) ≡ p ++ b'/' ∷ join_slash (split b'/' s [])
unfolding join_slash
join-cons p s = let (q, ps, h) = split-there s [] in rw h refl

join-split : (s cur : Str) → join_slash (split b'/' s cur) ≡ cur ++ s
unfolding join_slash split
join-split [] cur = sym (append-nil cur)
join-split (c ∷ s) cur = elim (Bool-cases (c == b'/')) [
  | inl e ↦
      let z : c ≡ b'/' = ground (arith, e) in
      rw (e, split)
        (join-cons cur s
          ∙ ap (λ r. cur ++ b'/' ∷ r) (join-split s [])
          ∙ ap (λ x. cur ++ x ∷ s) (sym z))
  | inr e ↦ rw (e, split) (join-split s (cur ++ c ∷ []) ∙ append_assoc cur (c ∷ []) s)
]

split-IsBytes : (s cur : Str) → IsBytes s → IsBytes cur → All IsBytes (split b'/' s cur)
unfolding split
split-IsBytes [] cur h k = (k, tt)
split-IsBytes (c ∷ s) cur (b, h) k = elim (Bool-cases (c == b'/')) [
  | inl e ↦ rw (e, split, All) (k, split-IsBytes s [] h tt)
  | inr e ↦
      rw (e, split, All)
        (split-IsBytes s (cur ++ c ∷ []) h (All-append (λ c. c < 256) cur (c ∷ []) k (b, tt)))
]

-- A path that is escaped segment by segment, and unescaped as nginx does, is the path.
pub unescape-encode : (p : Str) → IsBytes p → unescape (encode_path_segments p) ≡ p
unfolding encode_path_segments
unescape-encode p h = unescape-join (split b'/' p []) (split-IsBytes p [] h tt) ∙ join-split p []

trim-has : (prefix s : Str) → has_prefix prefix s ≡ true → prefix ++ trim_prefix prefix s ≡ s
unfolding has_prefix trim_prefix
trim-has [] s h = refl
trim-has (c ∷ p) [] h = cc
trim-has (c ∷ p) (d ∷ s) h =
    let both : ((c == d) && has_prefix p s) ≡ true = h in
    let z : c ≡ d = ground (arith, h) in
    let k : has_prefix p s ≡ true = ground (arith, h) in
    rw (both, trim_prefix) (rw z (ap (λ r. d ∷ r) (trim-has p s k)))

-- what is cut off is the prefix
trim_prefix-there :
    (prefix s : Str) → (trim_prefix prefix s ≡ s) ⊎ (prefix ++ trim_prefix prefix s ≡ s)
unfolding trim_prefix has_prefix
trim_prefix-there [] s = inl refl
trim_prefix-there (c ∷ p) [] = inl refl
trim_prefix-there (c ∷ p) (d ∷ s) = elim (Bool-cases ((c == d) && has_prefix p s)) [
  | inl e ↦ inr (trim-has (c ∷ p) (d ∷ s) e)
  | inr e ↦ inl (rw e refl)
]

behind-IsBytes : (m s : Str) → IsBytes (m ++ s) → IsBytes s
behind-IsBytes [] s h = h
behind-IsBytes (c ∷ m) s (_, h) = behind-IsBytes m s h

-- When nginx is told to send a file, its name is the mount prefix's part of the path cut off and
-- escaped behind the internal location: unescaped, and put behind the mount prefix, it is the path
-- of the file, of whatever bytes that consists.
pub send_file-Offloaded :
    (xaccel_prefix mount_prefix path mime_type target : Str)
    → IsBytes path
    → send_file xaccel_prefix mount_prefix path mime_type ≡ Sent.offloaded target
    → (name : Str) × (target ≡ xaccel_prefix ++ name) × (mount_prefix ++ unescape name ≡ path)
unfolding send_file
send_file-Offloaded x m path mime target b h = elim (trim_prefix-there m path) [
  | inl same ↦
      let e = (eq_str_iff (trim_prefix m path) path).1 same in
      elim (Bool-cases (is_empty x)) [
        | inl k ↦ absurd (cc (rw (k, send_file) at h))
        | inr k ↦ absurd (cc (rw (k, e, send_file) at h))
      ]
  | inr cut ↦ elim (Bool-cases (not (is_empty x) && not (eq_str (trim_prefix m path) path))) [
    | inr k ↦ absurd (cc (rw (k, send_file) at h))
    | inl k ↦ (
      encode_path_segments (trim_prefix m path),
      cc (rw (k, send_file) at h),
      ap (λ r. m ++ r)
            (unescape-encode (trim_prefix m path)
              (behind-IsBytes m (trim_prefix m path) (rw (sym cut) at b)))
          ∙ cut,
    )
  ]
]
