-- ===== src/Lanes/Scan/Found.antt =====
-- What a Scan finds.
use vaultflix.Base.{
  Str, to_lower, true, false, Bool-cases, none, Option-cases, ◌↔◌, List, [], ◌∷◌, ◌≡◌, ◌⊎◌, refl,
  inl, inr, arith,
}
use mathlib.Core.Path.{subst}
use vaultflix.Errors.{Error, ok, err}
use vaultflix.Paths.{ext}
use vaultflix.Lanes.Scan.{Visit, is_supported_extension, walked, scan_video_files}

-- The files of a walk without an error, in its order: those of a supported extension.
pub data Found : List Visit → List Str → Type 0 where
  nothing : Found [] []
  folder :
      (v : Visit) {vs : List Visit} {files : List Str}
      → v.error ≡ none
      → v.is_dir ≡ true
      → Found vs files
      → Found (v ∷ vs) files
  other :
      (v : Visit) {vs : List Visit} {files : List Str}
      → v.error ≡ none
      → v.is_dir ≡ false
      → is_supported_extension (to_lower (ext v.name)) ≡ false
      → Found vs files
      → Found (v ∷ vs) files
  video :
      (v : Visit) {vs : List Visit} {files : List Str}
      → v.error ≡ none
      → v.is_dir ≡ false
      → is_supported_extension (to_lower (ext v.name)) ≡ true
      → Found vs files
      → Found (v ∷ vs) (v.path ∷ files)

Found-walked : {vs : List Visit} {files : List Str} → Found vs files → walked vs ≡ ok files
unfolding walked
Found-walked nothing = refl
Found-walked (folder v e d f) = rw e (rw d (Found-walked f))
Found-walked (other v e d x f) = rw e (rw d (rw x (Found-walked f)))
Found-walked (video v e d x f) = rw e (rw d (rw x (rw (Found-walked f) refl)))

walked_outcome :
    (vs : List Visit)
    → ((files : List Str) × Found vs files × (walked vs ≡ ok files))
      ⊎ ((e : Error) × (walked vs ≡ err e))
unfolding walked
walked_outcome [] = inl ([], nothing, refl)
walked_outcome (v ∷ vs) = elim (Option-cases v.error) [
  | inr (x, e) ↦ inr (Error.wrap x, rw e refl)
  | inl e ↦ elim (Bool-cases v.is_dir) [
    | inl d ↦ elim (walked_outcome vs) [
      | inl (files, f, h) ↦ inl (files, folder v e d f, rw e (rw d h))
      | inr (x, h) ↦ inr (x, rw e (rw d h))
    ]
    | inr d ↦ elim (Bool-cases (is_supported_extension (to_lower (ext v.name)))) [
      | inl k ↦ elim (walked_outcome vs) [
        | inl (files, f, h) ↦ inl (v.path ∷ files, video v e d k f, rw e (rw d (rw k (rw h refl))))
        | inr (x, h) ↦ inr (x, rw e (rw d (rw k (rw h refl))))
      ]
      | inr k ↦ elim (walked_outcome vs) [
        | inl (files, f, h) ↦ inl (files, other v e d k f, rw e (rw d (rw k h)))
        | inr (x, h) ↦ inr (x, rw e (rw d (rw k h)))
      ]
    ]
  ]
]

found_files : (vs : List Visit) (files : List Str) → scan_video_files vs ≡ ok files → Found vs files
unfolding scan_video_files
found_files vs files h = elim (walked_outcome vs) [
  | inl (found, f, e) ↦ let same : found ≡ files = ground arith in subst (Found vs) same f
  | inr (x, e) ↦ absurd (ground arith)
]

-- A Scan returns a list of files exactly when no step of its walk failed and the list holds, in the
-- order of the walk, the path of each file whose extension is one of the five, whatever its case.
pub scan_video_files-IsFound :
    (vs : List Visit) (files : List Str) → (scan_video_files vs ≡ ok files) ↔ Found vs files
unfolding scan_video_files
scan_video_files-IsFound vs files =
    (found_files vs files, λ f. rw (scan_video_files, Found-walked f) refl)
