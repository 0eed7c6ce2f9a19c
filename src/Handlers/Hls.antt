-- ===== src/Handlers/Hls.antt =====
-- `HLSHandler` (internal/handler/hls_handler.go). The playlist is read by lines, as `bufio.Scanner`
-- does: a final `\r` is dropped, and its limit of 64 KiB for a line is not modelled.
pub mod Tokens
use vaultflix.Base.Text.{contains}
use vaultflix.Base.{
  ℕ, ◌+◌, ◌-◌, ◌/◌, ◌%◌, Str, codes, has_prefix, is_empty, Bool, true, false, ◌&&◌, ◌||◌, leb, ltb,
  ◌==◌, if◌then◌else◌, List, [], ◌∷◌, ◌++◌,
}
use vaultflix.Errors.{Result, ok, err}
use vaultflix.Playback.Hls.{Services, manifest, segment}
use vaultflix.Handlers.{Reply, refusal}

abbrev pub is_unreserved : ℕ → Bool
is_unreserved c =
    leb b'a' c && leb c b'z'
    || leb b'A' c && leb c b'Z'
    || leb b'0' c && leb c b'9'
    || c == b'-'
    || c == b'_'
    || c == b'.'
    || c == b'~'

abbrev pub hex_digit : ℕ → ℕ
hex_digit n = if ltb n 10 then b'0' + n else b'A' + (n - 10)

-- `url.QueryEscape`, of bytes.
unfoldable pub query_escape : Str → Str
query_escape [] = []
query_escape (c ∷ s) =
    let rest = query_escape s in
    if is_unreserved c
    then c ∷ rest
    else if c == 32
    then b'+' ∷ rest
    else b'%' ∷ hex_digit (c / 16 % 16) ∷ hex_digit (c % 16) ∷ rest

-- A line without the `\r` at its end.
unfoldable pub drop_cr : Str → Str
drop_cr [] = []
drop_cr (c ∷ []) = if c == 13 then [] else c ∷ []
drop_cr (c ∷ d ∷ s) = c ∷ drop_cr (d ∷ s)

-- The lines that the scanner gives, the current one so far in front; an empty last one is none.
unfoldable pub scan : Str → Str → List Str
unfolding drop_cr is_empty
scan cur [] = if is_empty cur then [] else drop_cr cur ∷ []
scan cur (c ∷ s) = elim (c == 10) [
  | true ↦ drop_cr cur ∷ scan [] s
  | false ↦ scan (cur ++ c ∷ []) s
]

-- A line as it is written out: a URI gets the token.
unfoldable pub with_token : Str → Str → Str
unfolding contains has_prefix is_empty
with_token escaped line =
    if is_empty line || has_prefix (codes "#") line
    then line
    else if contains (codes "?") line
    then line ++ codes "&token=" ++ escaped
    else line ++ codes "?token=" ++ escaped

-- The loop of `rewritePlaylistTokens`.
unfoldable pub write_lines : Str → List Str → Str
unfolding with_token
write_lines escaped [] = []
write_lines escaped (line ∷ lines) = with_token escaped line ++ 10 ∷ write_lines escaped lines

unfoldable pub rewrite_playlist_tokens : Str → Str → Str
unfolding write_lines scan query_escape is_empty
rewrite_playlist_tokens raw token =
    if is_empty token then raw else write_lines (query_escape token) (scan [] raw)

-- `Playlist`, for the query's token.
unfoldable pub playlist : Services → Str → Str → Reply Str
unfolding manifest rewrite_playlist_tokens
playlist s video_id token = elim (manifest s video_id) [
  | err e ↦ refusal e (codes "serve hls")
  | ok text ↦ Reply.replied 200 (rewrite_playlist_tokens text token)
]

-- `Segment`: the file that is sent.
unfoldable pub send_segment : Services → Str → Str → Reply Str
unfolding segment
send_segment s video_id name = elim (segment s video_id name) [
  | err e ↦ refusal e (codes "serve hls")
  | ok path ↦ Reply.replied 200 path
]
