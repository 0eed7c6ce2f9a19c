-- ===== src/Playback/Files.antt =====
-- What the paths, the Play Modes and the errors of `Playback` mean for a caller.
use vaultflix.Base.{
  Str, codes, eq_str_iff, to_lower, true, false, ◌||◌, not, Bool-cases, Option-cases, if◌then◌else◌,
  Option, none, All, ◌≡◌, ◌⊎◌, inl, inr, arith, sym, ◌↔◌,
}
use mathlib.Core.Path.{subst}
use vaultflix.Errors.{Sentinel, Error, is, Result, ok, err, Result-cases}
use vaultflix.Model.{PlayMode, MediaSource, Video}
use vaultflix.Paths.{join, is_rooted, elements, is_within, trim_dot}
use vaultflix.Paths.Within.{IsWithin, is_within-IsWithin, NotParent, elements-All}
use vaultflix.Playback.{
  classify_play_mode, stat_file, resolve_file, Resolver, resolve_video_file, hide_missing,
  resolve_playback,
}

-- a file that may be served: of an enabled Media Source, on disk, inside the mount and inside the
-- prefix of every mount, and with no `..` left in its path
pub record Served (find : Str → Result MediaSource) (stat : Str → Option Error)
    (prefix id abs : Str) : Type 0 where
  pub source : MediaSource
  pub found : find id ≡ ok source
  pub enabled : source.enabled ≡ true
  pub on_disk : stat abs ≡ none
  pub in_mount : IsWithin abs source.mount_path
  pub in_prefix : IsWithin abs prefix
  pub no_parent : is_rooted abs ≡ true → All NotParent (elements abs)

placed :
    (find : Str → Result MediaSource) (stat : Str → Option Error) (prefix id abs : Str)
    (source : MediaSource)
    → find id ≡ ok source
    → source.enabled ≡ true
    → is_within abs source.mount_path ≡ true
    → is_within abs prefix ≡ true
    → stat abs ≡ none
    → Served find stat prefix id abs
placed find stat prefix id abs source f e m p s = record {
  source = source;
  found = f;
  enabled = e;
  on_disk = s;
  in_mount = is_within-IsWithin abs source.mount_path m;
  in_prefix = is_within-IsWithin abs prefix p;
  no_parent = elements-All abs;
}

stat_file_ok :
    (stat : Str → Option Error) (abs out : Str)
    → stat_file stat abs ≡ ok out
    → (stat abs ≡ none) × (abs ≡ out)
unfolding stat_file
stat_file_ok stat abs out h = elim (Option-cases (stat abs)) [
  | inl e ↦ (e, ground arith)
  | inr (e, q) ↦ ground arith
]

stat_below :
    (stat : Str → Option Error) (prefix abs out : Str) (source : MediaSource)
    → (if not source.enabled
        then err (Error.wrap (Error.sentinel Sentinel.media_source_disabled))
        else if not (is_within abs source.mount_path) || not (is_within abs prefix)
        then err (Error.wrap (Error.sentinel Sentinel.path_not_allowed))
        else stat_file stat abs)
      ≡ ok out
    → (source.enabled ≡ true)
      × (is_within abs source.mount_path ≡ true)
      × (is_within abs prefix ≡ true)
      × (stat_file stat abs ≡ ok out)
stat_below stat prefix abs out source h = ground arith

found_file :
    (find : Str → Result MediaSource) (stat : Str → Option Error) (prefix id path abs : Str)
    (source : MediaSource)
    → find id ≡ ok source
    → resolve_file find stat prefix id path ≡ ok abs
    → Served find stat prefix id abs
unfolding resolve_file
found_file find stat prefix id path abs source q h =
    let (e, m, p, r) =
      stat_below stat prefix (join source.mount_path path) abs source (ground arith) in
    let (d, same) = stat_file_ok stat (join source.mount_path path) abs r in
    subst (Served find stat prefix id) same
      (placed find stat prefix id (join source.mount_path path) source q e m p d)

-- Every path that `ResolveFile` returns is that of a file on disk of an enabled Media Source: it
-- lies in the mount of the source and in the prefix of all mounts, each of which it equals or has
-- in front of a slash, and no element of its clean form is `..` when it is absolute.
pub resolve_file-Served :
    (find : Str → Result MediaSource) (stat : Str → Option Error) (prefix id path abs : Str)
    → resolve_file find stat prefix id path ≡ ok abs
    → Served find stat prefix id abs
unfolding resolve_file
resolve_file-Served find stat prefix id path abs h = elim (Result-cases (find id)) [
  | inl (e, q) ↦ ground (arith)
  | inr (source, q) ↦ found_file find stat prefix id path abs source q h
]

-- both codecs are ones that a browser plays
abbrev pub HasCodecs : Str → Str → Type 0
HasCodecs v a =
    (to_lower v ≡ codes "h264") × ((to_lower a ≡ codes "aac") ⊎ (to_lower a ≡ codes "mp3"))

-- the container is one that a browser plays
abbrev pub HasContainer : Str → Type 0
HasContainer c = (to_lower (trim_dot c) ≡ codes "mp4") ⊎ (to_lower (trim_dot c) ≡ codes "mov")

-- In any case of letters, the Play Mode is `direct` exactly when both codecs and the container are
-- ones that a browser plays, `remux` exactly when the codecs are and the container is not, and
-- `transcode` exactly when one of the codecs is not.
pub classify_play_mode_iff :
    (c v a : Str)
    → ((classify_play_mode c v a ≡ PlayMode.direct) ↔ (HasCodecs v a × HasContainer c))
      × ((classify_play_mode c v a ≡ PlayMode.remux) ↔ (HasCodecs v a × ¬ HasContainer c))
      × ((classify_play_mode c v a ≡ PlayMode.transcode) ↔ ¬ HasCodecs v a)
unfolding classify_play_mode
classify_play_mode_iff c v a =
    let h264 = eq_str_iff (to_lower v) (codes "h264") in
    let aac = eq_str_iff (to_lower a) (codes "aac") in
    let mp3 = eq_str_iff (to_lower a) (codes "mp3") in
    let mp4 = eq_str_iff (to_lower (trim_dot c)) (codes "mp4") in
    let mov = eq_str_iff (to_lower (trim_dot c)) (codes "mov") in
    ground (arith, h264, aac, mp3, mp4, mov)

hide_missing-not_found :
    (r : Result Str) (e : Error) → hide_missing r ≡ err e → is Sentinel.not_found e ≡ false
unfolding hide_missing is
hide_missing-not_found (ok path) e h = cc
hide_missing-not_found (err f) e h = elim (Bool-cases (is Sentinel.not_found f)) [
  | inl q ↦ ground arith
  | inr q ↦ ground arith
]

of_wrapped :
    (f e : Error)
    → Error.wrap f ≡ e
    → is Sentinel.not_found e ≡ true
    → is Sentinel.not_found f ≡ true
unfolding is
of_wrapped f e h k = subst (λ g. is Sentinel.not_found g ≡ true) (sym h) k

-- `ResolvePlayback` answers not found only when the Video itself is not found.
pub resolve_playback-missing :
    (get_by_id : Str → Result Video) (files : Resolver) (id : Str) (e : Error)
    → resolve_playback get_by_id files id ≡ err e
    → is Sentinel.not_found e ≡ true
    → (f : Error) × (get_by_id id ≡ err f) × (is Sentinel.not_found f ≡ true)
unfolding resolve_playback
resolve_playback-missing get_by_id files id e h k = elim (Result-cases (get_by_id id)) [
  | inl (f, q) ↦ (f, q, of_wrapped f e (ground arith) k)
  | inr (video, q) ↦ elim (Result-cases (hide_missing (resolve_video_file files video))) [
    | inl (f, r) ↦ let known = hide_missing-not_found _ f r in ground arith
    | inr (path, r) ↦ ground arith
  ]
]
