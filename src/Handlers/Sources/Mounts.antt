-- ===== src/Handlers/Sources/Mounts.antt =====
-- Where a Media Source may be mounted.
use vaultflix.Base.{
  Str, eq_str, eq_str_iff, true, false, none, some, ◌≡◌, ◌⊎◌, inl, inr, refl, Bool-cases,
  Option-cases,
}
use vaultflix.Errors.{Error, ok, err, wrapping, Result-cases}
use vaultflix.Model.{MediaSource}
use vaultflix.Paths.{clean, is_within}
use vaultflix.Handlers.Sources.{Mounted, validate_mount_path, create}

module _ {D : Type 0} (m : Mounted D) (mount_prefix : Str) where
  -- A path that may be mounted: it is in its shortest form, lies under the mount prefix and is a
  -- directory.
  pub record IsMount (path : Str) : Type 0 where
    pub shortest : clean path ≡ path
    pub below : is_within path mount_prefix ≡ true
    pub directory : m.stat path ≡ ok true

  validated-IsMount : (path : Str) → validate_mount_path m mount_prefix path ≡ none → IsMount path
  unfolding validate_mount_path
  validated-IsMount path h = elim (Bool-cases (is_within (clean path) mount_prefix)) [
    | inr w ↦ absurd (cc (rw (w, validate_mount_path) at h))
    | inl w ↦ elim (Bool-cases (eq_str (clean path) path)) [
      | inr c ↦ absurd (cc (rw (w, c, validate_mount_path) at h))
      | inl c ↦ elim (Result-cases (m.stat (clean path))) [
        | inl (e, s) ↦ absurd (cc (rw (w, c, s, validate_mount_path) at h))
        | inr (false, s) ↦ absurd (cc (rw (w, c, s, validate_mount_path) at h))
        | inr (true, s) ↦
            let same = (eq_str_iff (clean path) path).0 c in
            record { shortest = same; below = rw same at w; directory = rw same at s }
      ]
    ]
  ]

  -- A Media Source is refused for its path and the database left alone, or its path may be mounted
  -- and it is stored as it is.
  pub create-IsMount :
      (source : MediaSource) (d : D)
      → ((e : Error) × (validate_mount_path m mount_prefix source.mount_path ≡ some e)
          × (create m mount_prefix source d ≡ (d, err e)))
        ⊎ (IsMount source.mount_path
            × ((create m mount_prefix source d).0 ≡ (m.create_source source d).0)
            × ((create m mount_prefix source d).1 ≡ wrapping (m.create_source source d).1))
  unfolding create
  create-IsMount source d =
      elim (Option-cases (validate_mount_path m mount_prefix source.mount_path)) [
        | inr (e, v) ↦ inl (e, v, rw (v, create) refl)
        | inl v ↦
            inr (validated-IsMount source.mount_path v, rw (v, create) refl, rw (v, create) refl)
      ]
