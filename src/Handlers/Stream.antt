-- ===== src/Handlers/Stream.antt =====
-- `VideoHandler.Stream` (internal/handler/video_handler.go): who sends a Video's bytes. Text is
-- bytes here; `encodePathSegments` escapes them one by one.
pub mod Offloaded
use vaultflix.Base.{
  ℕ, ◌+◌, ◌-◌, ◌/◌, ◌%◌, Str, codes, eq_str, has_prefix, is_empty, split, Bool, true, false, ◌&&◌,
  ◌||◌, leb, ltb, ◌==◌, not, if◌then◌else◌, List, [], ◌∷◌, ◌++◌, map,
}
use vaultflix.Errors.{Result, ok, err}
use vaultflix.Playback.{PlaybackSource, is_legacy}
use vaultflix.Handlers.{Reply, refusal}
use vaultflix.Handlers.Hls.{is_unreserved, hex_digit}

-- the bytes that `url.PathEscape` leaves as they are
abbrev pub is_kept : ℕ → Bool
is_kept c =
    is_unreserved c || c == b'$' || c == b'&' || c == b'+' || c == b'=' || c == b':' || c == b'@'

-- `url.PathEscape`
unfoldable pub path_escape : Str → Str
path_escape [] = []
path_escape (c ∷ s) =
    let rest = path_escape s in
    if is_kept c then c ∷ rest else b'%' ∷ hex_digit (c / 16 % 16) ∷ hex_digit (c % 16) ∷ rest

-- `strings.Join(parts, "/")`
unfoldable pub join_slash : List Str → Str
join_slash [] = []
join_slash (p ∷ []) = p
join_slash (p ∷ q ∷ ps) = p ++ b'/' ∷ join_slash (q ∷ ps)

unfoldable pub encode_path_segments : Str → Str
unfolding join_slash path_escape split
encode_path_segments p = join_slash (map path_escape (split b'/' p []))

-- `strings.TrimPrefix(s, prefix)`, the prefix first
unfoldable pub trim_prefix : Str → Str → Str
trim_prefix [] s = s
trim_prefix (c ∷ p) [] = []
trim_prefix (c ∷ p) (d ∷ s) =
    let rest = trim_prefix p s in if (c == d) && has_prefix p s then rest else d ∷ s

-- How the bytes are sent: by a redirect to the object store, by nginx, or from the file, with its
-- MIME type.
pub data Sent : Type 0 where
  redirected : Str → Sent
  offloaded : Str → Sent
  served : Str → Str → Sent

-- Of a file on disk.
unfoldable pub send_file : Str → Str → Str → Str → Sent
unfolding is_empty trim_prefix eq_str encode_path_segments
send_file xaccel_prefix mount_prefix path mime_type =
    let rel = trim_prefix mount_prefix path in
    if not (is_empty xaccel_prefix) && not (eq_str rel path)
    then Sent.offloaded (xaccel_prefix ++ encode_path_segments rel)
    else Sent.served path mime_type

abbrev redirect : Result Str → Reply Sent
redirect (ok url) = Reply.replied 307 (Sent.redirected url)
redirect (err e) = refusal e (codes "generate stream url")

unfoldable pub stream :
    (Str → Result PlaybackSource) → (Str → Result Str) → Str → Str → Str → Reply Sent
unfolding is_legacy send_file
stream resolve_playback get_presigned_url xaccel_prefix mount_prefix video_id =
    elim (resolve_playback video_id) [
      | err e ↦ refusal e (codes "resolve video file")
      | ok src ↦
          if is_legacy src
          then redirect (get_presigned_url src.legacy_object_key)
          else Reply.replied 200 (send_file xaccel_prefix mount_prefix src.path src.mime_type)
    ]
