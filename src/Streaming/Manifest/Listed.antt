-- ===== src/Streaming/Manifest/Listed.antt =====
-- What a player reads out of the manifest of internal/streaming/manifest.go.
use vaultflix.Base.{
  ℕ, zero, suc, ◌+◌, ◌<◌, ◌/◌, Str, codes, split, Bool, true, false, not, ◌==◌, if◌then◌else◌, some,
  List, [], ◌∷◌, ◌++◌, All-append, length, get_elem?, ◌≡◌, ◌≢◌, arith, refl, ap, ◌∙◌,
}
use vaultflix.Base.Text.{itoa}
use vaultflix.Lines.{IsLine, breakless, breakless-IsLine, split-line, itoa-IsLine, digits-IsLine}
use vaultflix.Streaming.Decimal.{format_seconds, format_seconds-IsLine}
use vaultflix.Streaming.Segments.{SegmentBoundary}
use vaultflix.Streaming.Names.{pad_five, segment_name}
use vaultflix.Streaming.Manifest.{entries, target_duration, build_vod_manifest}

-- The URIs of a playlist are its lines that are neither empty nor comments.
abbrev is_uri : Str → Bool
is_uri [] = false
is_uri (c ∷ s) = not (c == b'#')

pub uri_lines : List Str → List Str
uri_lines [] = []
uri_lines (l ∷ ls) = let rest = uri_lines ls in if is_uri l then l ∷ rest else rest

unfoldable pub uris : Str → List Str
uris text = uri_lines (split 10 text [])

literal-IsLine : (s : Str) → breakless s ≡ true → IsLine s
literal-IsLine s h = breakless-IsLine s h

both-IsLine : (s t : Str) → IsLine s → IsLine t → IsLine (s ++ t)
both-IsLine s t h k = All-append (λ c. c ≢ 10) s t h k

segment_name-IsLine : (i : ℕ) → IsLine (segment_name i)
unfolding segment_name pad_five breakless
segment_name-IsLine i =
    both-IsLine (codes "seg") (pad_five i ++ codes ".ts") (breakless-IsLine (codes "seg") refl) (
      both-IsLine (pad_five i) (codes ".ts")
        (digits-IsLine (i / 100_000) (i / 100_000) _ (
          λ z. absurd (omega (arith, z)),
          (
            λ z. absurd (omega (arith, z)),
            (
              λ z. absurd (omega (arith, z)),
              (λ z. absurd (omega (arith, z)), (λ z. absurd (omega (arith, z)), tt)),
            ),
          ),
        ))
        (breakless-IsLine (codes ".ts") refl))

-- the names of so many segments, from the `i`-th on
unfoldable pub names : ℕ → ℕ → List Str
names i zero = []
names i (suc n) = segment_name i ∷ names (suc i) n

-- a comment in front of a text adds no URI, a name one
uris-comment :
    (line rest : Str) → is_uri line ≡ false → IsLine line → uris (line ++ 10 ∷ rest) ≡ uris rest
unfolding uris uri_lines
uris-comment line rest c h = ap uri_lines (split-line line rest [] h) ∙ rw c refl

uris-name : (i : ℕ) (rest : Str) → uris (segment_name i ++ 10 ∷ rest) ≡ segment_name i ∷ uris rest
unfolding uris uri_lines segment_name
uris-name i rest = ap uri_lines (split-line (segment_name i) rest [] (segment_name-IsLine i))

uris-entries :
    (i : ℕ) (segs : List SegmentBoundary) (tail : Str)
    → uris tail ≡ []
    → uris (entries i segs tail) ≡ names i (length segs)
unfolding entries names breakless
uris-entries i [] tail h = h
uris-entries i (s ∷ segs) tail h =
    uris-comment (codes "#EXTINF:" ++ (format_seconds s.duration ++ codes ",")) _ refl (
      both-IsLine (codes "#EXTINF:") (format_seconds s.duration ++ codes ",")
        (breakless-IsLine (codes "#EXTINF:") refl)
        (both-IsLine (format_seconds s.duration) (codes ",") (format_seconds-IsLine s.duration)
          (breakless-IsLine (codes ",") refl)))
    ∙ uris-name i (entries (suc i) segs tail)
    ∙ ap (λ l. segment_name i ∷ l) (uris-entries (suc i) segs tail h)

uris-end : uris (codes "#EXT-X-ENDLIST" ++ 10 ∷ []) ≡ []
unfolding uris uri_lines split
uris-end = refl

-- The URIs of the manifest are the names of the segments, from 0 on, one for each.
pub uris-build_vod_manifest :
    (segs : List SegmentBoundary) → uris (build_vod_manifest segs) ≡ names 0 (length segs)
unfolding build_vod_manifest breakless uris uri_lines
uris-build_vod_manifest segs =
    uris-comment (codes "#EXTM3U") _ refl (breakless-IsLine (codes "#EXTM3U") refl)
    ∙ uris-comment (codes "#EXT-X-VERSION:3") _ refl
        (breakless-IsLine (codes "#EXT-X-VERSION:3") refl)
    ∙ uris-comment (codes "#EXT-X-PLAYLIST-TYPE:VOD") _ refl
        (breakless-IsLine (codes "#EXT-X-PLAYLIST-TYPE:VOD") refl)
    ∙ uris-comment (codes "#EXT-X-TARGETDURATION:" ++ itoa (target_duration segs)) _ refl (
        both-IsLine (codes "#EXT-X-TARGETDURATION:") _
          (breakless-IsLine (codes "#EXT-X-TARGETDURATION:") refl)
          (itoa-IsLine (target_duration segs)))
    ∙ uris-comment (codes "#EXT-X-MEDIA-SEQUENCE:0") _ refl
        (breakless-IsLine (codes "#EXT-X-MEDIA-SEQUENCE:0") refl)
    ∙ uris-entries 0 segs (codes "#EXT-X-ENDLIST" ++ 10 ∷ []) uris-end

pub length-names : (i n : ℕ) → length (names i n) ≡ n
unfolding names
length-names i zero = refl
length-names i (suc n) = ap suc (length-names (suc i) n)

pub get_elem-names :
    (i n k : ℕ) (name : Str)
    → get_elem? (names i n) k ≡ some name
    → (k < n) × (name ≡ segment_name (i + k))
unfolding names
get_elem-names i zero k name h = cc h
get_elem-names i (suc n) zero name h =
    let h' : name ≡ segment_name i = cc h in (omega arith, h' ∙ ap segment_name (omega arith))
get_elem-names i (suc n) (suc k) name h =
    let (l, e) = get_elem-names (suc i) n k name h in
    (omega (arith, l), e ∙ ap segment_name (omega arith))
