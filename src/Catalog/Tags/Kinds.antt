-- ===== src/Catalog/Tags/Kinds.antt =====
-- Which Tags are stored, and what tagging a Video answers.
use vaultflix.Base.{
  ℕ, Str, codes, eq_str_iff, is_empty, true, if◌then◌else◌, some, [], ◌∷◌, ◌≡◌, ◌⊎◌, inl, inr, refl,
  arith, Bool-cases,
}
use vaultflix.Errors.{Sentinel, Error, is, as_missing_resource, ok, err, wrapping}
use vaultflix.Model.{Video}
use vaultflix.Catalog.Tags.{
  Tag, TagRepository, bad_tag_category, is_allowed_category, missing, create, add_video_tag,
}

-- The four kinds of Tag.
abbrev pub IsKind : Str → Type 0
IsKind c = (c ≡ codes "genre") ⊎ (c ≡ codes "actor") ⊎ (c ≡ codes "studio") ⊎ (c ≡ codes "custom")

is_allowed_category-IsKind : (c : Str) → is_allowed_category c ≡ true → IsKind c
unfolding is_allowed_category
is_allowed_category-IsKind c h = ground (
  arith,
  eq_str_iff c (codes "genre"),
  eq_str_iff c (codes "actor"),
  eq_str_iff c (codes "studio"),
  eq_str_iff c (codes "custom"),
)

own :
    (c : Str)
    → (c ≡ []) × ((if is_empty c then codes "custom" else c) ≡ codes "custom")
      ⊎ (c ≡ (if is_empty c then codes "custom" else c))
unfolding is_empty
own [] = inl (refl, refl)
own (x ∷ c) = inr refl

module _ {D : Type 0} (r : TagRepository D) where
  -- the category that a Tag is stored with
  abbrev category_of : Tag → Str
  category_of tag = if is_empty tag.category then codes "custom" else tag.category

  category_of_own :
      (tag : Tag)
      → (tag.category ≡ []) × (category_of tag ≡ codes "custom") ⊎ (tag.category ≡ category_of tag)
  unfolding is_empty
  category_of_own tag = own tag.category

  -- A Tag is refused as invalid and the database left alone, or it is stored under its name with
  -- one of the four categories: its own, or "custom" where it has none.
  pub create-IsKind :
      (tag : Tag) (d : D)
      → ((create r tag d).0 ≡ d)
          × ((e : Error) × ((create r tag d).1 ≡ err e) × (is Sentinel.invalid_input e ≡ true))
        ⊎ ((c : Str) × IsKind c
            × ((tag.category ≡ []) × (c ≡ codes "custom") ⊎ (tag.category ≡ c))
            × ((create r tag d).0 ≡ (r.create (record tag { category = c }) d).0)
            × ((create r tag d).1 ≡ wrapping (r.create (record tag { category = c }) d).1))
  unfolding create is is_empty
  create-IsKind tag d = elim (Bool-cases (is_allowed_category (category_of tag))) [
    | inr e ↦
        inl (rw (e, create) refl, (Error.invalid_param bad_tag_category, rw (e, create) refl, refl))
    | inl e ↦ inr (
      category_of tag,
      is_allowed_category-IsKind (category_of tag) e,
      category_of_own tag,
      rw (e, create) refl,
      rw (e, create) refl,
    )
  ]

  -- A Video that is not there is reported as the missing "video", before the Tag is looked for; a
  -- Tag that is not there as the missing "tag"; and in both cases the database is left alone.
  pub add_video_tag-missing :
      (video_id : Str) (tag_id : ℕ) (d : D) (e : Error)
      → is Sentinel.not_found e ≡ true
      → (r.video_by_id video_id d ≡ err e
          → ((add_video_tag r video_id tag_id d).0 ≡ d)
            × ((f : Error) × ((add_video_tag r video_id tag_id d).1 ≡ err f)
                × (as_missing_resource f ≡ some (codes "video"))))
        × ((v : Video)
            → r.video_by_id video_id d ≡ ok v
            → r.get_by_id tag_id d ≡ err e
            → ((add_video_tag r video_id tag_id d).0 ≡ d)
              × ((f : Error) × ((add_video_tag r video_id tag_id d).1 ≡ err f)
                  × (as_missing_resource f ≡ some (codes "tag"))))
  unfolding add_video_tag as_missing_resource
  add_video_tag-missing video_id tag_id d e n = (
    λ h. (
      rw (h, add_video_tag) refl,
      (missing e (codes "video"), rw (h, add_video_tag) refl, rw (n, missing) refl),
    ),
    λ v h k. (
      rw (h, k, add_video_tag) refl,
      (missing e (codes "tag"), rw (h, k, add_video_tag) refl, rw (n, missing) refl),
    ),
  )
