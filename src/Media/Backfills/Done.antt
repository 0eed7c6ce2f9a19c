-- ===== src/Media/Backfills/Done.antt =====
-- What a Backfill does to a Video whose Media Source is disabled, and which Videos it takes.
use vaultflix.Base.{
  Str, true, Option, some, List, [], ◌∷◌, All, ◌≡◌, refl, Bool-cases, inl, inr, arith,
}
use vaultflix.Errors.{Sentinel, Error, is, err}
use vaultflix.Model.{PlayMode, Video}
use vaultflix.Playback.{Resolver, resolve_video_file, video_play_mode}
use vaultflix.Keyframes.{uses_keyframe_index}
use vaultflix.Lanes.Items.{backfill_outcome}
use vaultflix.Media.Backfills.{
  Backfilled, process_preview, process_codec, process_keyframe, only_remux,
}

-- The item of a Job ends with the error that counts as skipped, in the state that it began in.
abbrev pub IsSkipped : {D : Type 0} → D → D × Option Error → Type 0
IsSkipped d r =
    (f : Error) × (backfill_outcome r ≡ (d, some f)) × (is Sentinel.job_item_skipped f ≡ true)

resolve-err :
    (files : Resolver) (source path : Str) (v : Video) (e : Error)
    → v.source_id ≡ some source
    → v.file_path ≡ some path
    → files source path ≡ err e
    → resolve_video_file files v ≡ err (Error.wrap e)
unfolding resolve_video_file
resolve-err files source path v e s p h = rw (s, p, h) refl

outcome-IsSkipped :
    {D : Type 0} (d : D) (e : Error)
    → is Sentinel.media_source_disabled e ≡ true
    → IsSkipped d (d, some (Error.wrap e))
unfolding backfill_outcome is
outcome-IsSkipped d e h =
    (Error.wrap_both (Error.sentinel Sentinel.job_item_skipped) (Error.wrap e), rw h refl, refl)

module _ {D : Type 0} (b : Backfilled D) where
  -- A Video of a disabled Media Source is skipped, not failed, by each of the three Backfills that
  -- read its file, and nothing is written.
  pub disabled-IsSkipped :
      (source path : Str) (v : Video) (d : D) (e : Error)
      → v.source_id ≡ some source
      → v.file_path ≡ some path
      → b.files source path ≡ err e
      → is Sentinel.media_source_disabled e ≡ true
      → IsSkipped d (process_preview b v d)
        × IsSkipped d (process_codec b v d)
        × IsSkipped d (process_keyframe b v d)
  unfolding process_preview process_codec process_keyframe
  disabled-IsSkipped source path v d e s p f h =
      let r = resolve-err b.files source path v e s p f in
      let skipped = outcome-IsSkipped d e h in
      (
        rw (r, process_preview) skipped,
        rw (r, process_codec) skipped,
        rw (r, process_keyframe) skipped,
      )

-- the Videos that play by remux
abbrev pub IsRemux : Video → Type 0
IsRemux v = video_play_mode v ≡ PlayMode.remux

uses_index-IsRemux : (v : Video) → uses_keyframe_index v ≡ true → IsRemux v
unfolding uses_keyframe_index
uses_index-IsRemux v h = ground arith

only_remux-IsRemux : (vs : List Video) → All IsRemux (only_remux vs)
unfolding only_remux
only_remux-IsRemux [] = tt
only_remux-IsRemux (v ∷ vs) = elim (Bool-cases (uses_keyframe_index v)) [
  | inl e ↦ rw e (uses_index-IsRemux v e, only_remux-IsRemux vs)
  | inr e ↦ rw e (only_remux-IsRemux vs)
]
